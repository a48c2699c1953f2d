-- ===== src/Namespace/Binding.antt =====
-- `namespaceBinding` (packages/store/src/namespace.ts): how keys, collections, targets and version
-- tokens are written in the store below, and read back from it.
use mirk.Common.{
  ℕ, Bool, false, ◌==◌, not, ◌||◌, Option, none, some, List, [], ◌∷◌, ◌++◌, map, drop, length,
  if◌then◌else◌,
}
use mirk.Common.Result.{Result, ok, err, ◌>>=◌, require}
use mirk.Text.{Str, ascii, is_empty}
use mirk.Js.{Number, Js, undefined, arr, obj, str, end, field}
use mirk.Atomic.Encode.{condition_js, operation_js, array_js, outcome_js}
use mirk.Atomic.Limits.{Limits}
use mirk.Atomic.Shape.{
  Rejection, invalid_request, Expected, missing, present, version, Condition, Operation,
  Idempotency,
}
use mirk.Atomic.Target.{Target, key, record_of}
use mirk.Atomic.Validate.{validate_atomic_request}
use mirk.Memory.State.{Completed}
use mirk.Memory.Values.{starts_with}
use mirk.Memory.Mutate.{
  Versioned, MutationResult, applied, replayed, conflict, idempotency_conflict,
}

pub data NamespaceError : Type 0 where
  invalid_namespace : NamespaceError

-- `SEPARATOR`, the unit separator.
abbrev pub separator : ℕ
separator = 0x1F

unfoldable pub has_unit : ℕ → Str → Bool
has_unit u [] = false
has_unit u (v ∷ s) = v == u || has_unit u s

-- `assertNamespace(namespace)`
unfoldable pub assert_namespace : Str → Result NamespaceError (Unit {0})
unfolding has_unit
assert_namespace namespace =
    require (not (is_empty namespace || has_unit separator namespace)) invalid_namespace

-- `prefix(namespace, value)`
unfoldable pub prefix : Str → Str → Str
prefix namespace value = namespace ++ separator ∷ value

-- `value.slice(keyPrefix.length)`
unfoldable pub unbind_key : Str → Str → Str
unfolding prefix
unbind_key namespace stored = drop (length (prefix namespace [])) stored

abbrev pub version_prefix : Str → Str
version_prefix namespace = namespace ++ 0 ∷ []

unfoldable pub bind_target : Str → Target → Target
unfolding prefix
bind_target namespace (key k) = key (prefix namespace k)
bind_target namespace (record_of collection id) = record_of (prefix namespace collection) id

unfoldable pub unbind_target : Str → Target → Target
unfolding unbind_key
unbind_target namespace (key k) = key (unbind_key namespace k)
unbind_target namespace (record_of collection id) = record_of (unbind_key namespace collection) id

unfoldable pub bind_version : Str → Str → Str
bind_version namespace token = version_prefix namespace ++ token

-- What a condition expects, in the store below.
unfoldable pub bind_expected : Str → Expected → Result Rejection Expected
unfolding starts_with
bind_expected namespace missing = ok missing
bind_expected namespace present = ok present
bind_expected namespace (version token) =
    if starts_with (version_prefix namespace) token
    then ok (version (drop (length (version_prefix namespace)) token))
    else err invalid_request

unfoldable pub bind_condition : Str → Condition → Result Rejection Condition
unfolding bind_expected bind_target
bind_condition namespace c = do
  expected ← bind_expected namespace c.expected
  ok (record { target = bind_target namespace c.target; expected = expected })

unfoldable pub unbind_expected : Str → Expected → Expected
unfolding bind_version
unbind_expected namespace missing = missing
unbind_expected namespace present = present
unbind_expected namespace (version token) = version (bind_version namespace token)

unfoldable pub unbind_condition : Str → Condition → Condition
unfolding unbind_expected unbind_target
unbind_condition namespace c = record {
  target = unbind_target namespace c.target;
  expected = unbind_expected namespace c.expected;
}

-- `validated.conditions.map(bindCondition)`
unfoldable pub bind_conditions : Str → List Condition → Result Rejection (List Condition)
unfolding bind_condition
bind_conditions namespace [] = ok []
bind_conditions namespace (c ∷ cs) = do
  bound ← bind_condition namespace c
  rest ← bind_conditions namespace cs
  ok (bound ∷ rest)

abbrev unbind_version : Str → Option Str → Option Str
unbind_version namespace none = none
unbind_version namespace (some token) = some (bind_version namespace token)

abbrev unbind_entry : Str → Target × Option Str → Target × Option Str
unbind_entry namespace (t, v) = (unbind_target namespace t, unbind_version namespace v)

module _ {N : Type 0} where
  unfoldable pub bind_operation : Str → Operation N → Operation N
  unfolding prefix
  bind_operation namespace (Operation.set k v) = Operation.set (prefix namespace k) v
  bind_operation namespace (Operation.delete_key k) = Operation.delete_key (prefix namespace k)
  bind_operation namespace (Operation.put collection item) =
      Operation.put (prefix namespace collection) item
  bind_operation namespace (Operation.remove collection id) =
      Operation.remove (prefix namespace collection) id

  unfoldable pub bind_versioned : Str → Option (Versioned N) → Option (Versioned N)
  unfolding bind_version
  bind_versioned namespace none = none
  bind_versioned namespace (some v) =
      some (record { value = v.value; version = bind_version namespace v.version })

  -- The idempotency object of the bound request, or undefined.
  unfoldable pub bind_idempotency : Str → Option (Idempotency N) → Js N
  unfolding prefix outcome_js
  bind_idempotency namespace none = undefined
  bind_idempotency namespace (some i) =
      obj (field (ascii "key") (str (prefix namespace i.key)) (outcome_js i.outcome))

  -- The object that `bindRequest` returns.
  unfoldable pub bound_request :
      Str → List Condition → List (Operation N) → Option (Idempotency N) → Js N
  unfolding condition_js operation_js array_js bind_operation bind_idempotency
  bound_request namespace conditions operations idempotency = obj (
      field (ascii "conditions") (arr (array_js condition_js conditions)) (
        field (ascii "operations")
          (arr (array_js operation_js (map (bind_operation namespace) operations)))
          (field (ascii "idempotency") (bind_idempotency namespace idempotency) end)))

  abbrev unbind_completed : Str → Completed N → Completed N
  unbind_completed namespace c = record c { versions = map (unbind_entry namespace) c.versions }

  -- `unbindResult(result)`
  unfoldable pub unbind_result : Str → MutationResult N → MutationResult N
  unfolding unbind_condition unbind_key unbind_target bind_version
  unbind_result namespace (conflict c observed) =
      conflict (unbind_condition namespace c) (unbind_expected namespace observed)
  unbind_result namespace (idempotency_conflict k existing requested) =
      idempotency_conflict (unbind_key namespace k) existing requested
  unbind_result namespace (applied c) = applied (unbind_completed namespace c)
  unbind_result namespace (replayed c) = replayed (unbind_completed namespace c)

-- `bindRequest(request, limits)`
unfoldable pub bind_request :
    {N : Type 0} ⦃number : Number N⦄ → Str → Js N → Limits → Result Rejection (Js N)
unfolding bind_conditions bound_request
bind_request namespace request limits = do
  validated ← validate_atomic_request request limits
  conditions ← bind_conditions namespace validated.conditions
  ok (bound_request namespace conditions validated.operations validated.idempotency)
