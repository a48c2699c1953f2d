-- ===== src/Atomic/Validate.antt =====
-- `validateAtomicRequest` (packages/store/src/atomic.ts). A value of any form comes in; what comes out
-- is normal: conditions in the order of their targets, no target twice, values cloned.
use mirk.Common.{not, Option, none, some, List, [], map, ltb, ◌==◌, if◌then◌else◌}
use mirk.Common.Result.{Result, ok, ◌>>=◌, ◌>>◌, require}
use mirk.Text.{Str, ascii}
use mirk.Sort.{sort}
use mirk.Sha256.{sha256_hex}
use mirk.Js.{Number, Js, obj, Fields, at, property, is_undefined}
use mirk.Canonical.{clone_json}
use mirk.Atomic.Encode.{digest_input, with_idempotency}
use mirk.Atomic.Limits.{Limits}
use mirk.Atomic.Normalize.{
  expect, object_of, array_of, string_of, normalize_condition, normalize_operation, normalize_all,
  count_slots, has_repeat, by_target, byte_length, json_safe, text_of, max_atomic_outcome_bytes,
}
use mirk.Atomic.Shape.{
  Rejection, invalid_request, condition_limit_exceeded, operation_limit_exceeded,
  request_size_exceeded, outcome_size_exceeded, Condition, Operation, Idempotency, Validated,
  operation_target,
}
use mirk.Atomic.Target.{target_key}

abbrev pub condition_keys : List Condition → List Str
condition_keys conditions = map (λ c. target_key c.target) conditions

abbrev pub operation_keys : {N : Type 0} → List (Operation N) → List Str
operation_keys operations = map (λ o. target_key (operation_target o)) operations

module _ {N : Type 0} ⦃number : Number N⦄ where
  -- The loops over the conditions, after the limit was checked.
  unfoldable pub read_conditions : Js N → Result Rejection (List Condition)
  read_conditions value = if is_undefined value then ok [] else do
    slots ← expect (array_of value)
    conditions ← normalize_all normalize_condition slots
    require (not (has_repeat [] (condition_keys conditions))) invalid_request
    ok (sort by_target conditions)

  unfoldable pub check_condition_limit : Js N → Limits → Result Rejection (Unit {0})
  check_condition_limit value limits = if is_undefined value then ok tt else do
    slots ← expect (array_of value)
    require (not (ltb limits.max_conditions (count_slots slots))) condition_limit_exceeded

  unfoldable pub read_operations : Js N → Result Rejection (List (Operation N))
  read_operations value = do
    slots ← expect (array_of value)
    operations ← normalize_all normalize_operation slots
    require (not (has_repeat [] (operation_keys operations))) invalid_request
    ok operations

  unfoldable pub check_operation_limit : Js N → Limits → Result Rejection (Unit {0})
  check_operation_limit value limits = do
    slots ← expect (array_of value)
    require (not (count_slots slots == 0)) invalid_request
    require (not (ltb limits.max_operations (count_slots slots))) operation_limit_exceeded

  -- The outcome of an idempotency object that has one, cloned and within the cap.
  unfoldable pub read_outcome : Option (Js N) → Result Rejection (Option (Js N))
  read_outcome none = ok none
  read_outcome (some value) = do
    json_safe value
    text ← text_of (clone_json value)
    require (not (ltb max_atomic_outcome_bytes (byte_length text))) outcome_size_exceeded
    ok (some (clone_json value))

  unfoldable pub read_idempotency : Js N → Result Rejection (Option (Idempotency N))
  read_idempotency value = if is_undefined value then ok none else do
    fs ← expect (object_of value)
    k ← expect (string_of (at (ascii "key") fs))
    outcome ← read_outcome (property (ascii "outcome") fs)
    ok (some (record { key = k; outcome = outcome }))

  abbrev outcome_of : Option (Idempotency N) → Option (Js N)
  outcome_of none = none
  outcome_of (some i) = i.outcome

  abbrev bounded_input : Option (Idempotency N) → Fields N → Fields N
  bounded_input none fs = fs
  bounded_input (some i) fs = with_idempotency i.key fs

  -- `validateAtomicRequest(request, limits)`
  unfoldable pub validate_atomic_request : Js N → Limits → Result Rejection (Validated N)
  validate_atomic_request request limits = do
    fs ← expect (object_of request)
    check_operation_limit (at (ascii "operations") fs) limits
    check_condition_limit (at (ascii "conditions") fs) limits
    conditions ← read_conditions (at (ascii "conditions") fs)
    operations ← read_operations (at (ascii "operations") fs)
    idempotency ← read_idempotency (at (ascii "idempotency") fs)
    let input = digest_input conditions operations (outcome_of idempotency)
    encoded ← text_of (obj input)
    bounded ← text_of (obj (bounded_input idempotency input))
    require (not (ltb limits.max_request_bytes (byte_length bounded))) request_size_exceeded
    ok (record {
      conditions = conditions;
      operations = operations;
      idempotency = idempotency;
      request_digest = sha256_hex encoded;
    })
