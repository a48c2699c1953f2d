-- ===== src/Atomic/Encode.antt =====
-- The value whose canonical text a request digest is taken of (packages/store/src/atomic.ts).
use mirk.Common.{Option, none, some, List, [], ◌∷◌}
use mirk.Text.{Str, ascii}
use mirk.Js.{Js, arr, obj, str, Items, nil, cons, Fields, end, field}
use mirk.Atomic.Target.{Target, key, record_of}
use mirk.Atomic.Shape.{
  Condition, Operation, set, delete_key, put, remove, Expected, missing, present, version,
}

module _ {N : Type 0} where
  unfoldable pub target_js : Target → Js N
  target_js (key k) =
      obj (field (ascii "kind") (str (ascii "key")) (field (ascii "key") (str k) end))
  target_js (record_of collection id) = obj (
      field (ascii "kind") (str (ascii "record"))
        (field (ascii "collection") (str collection) (field (ascii "id") (str id) end)))

  unfoldable pub expected_js : Expected → Fields N
  expected_js missing = field (ascii "expected") (str (ascii "missing")) end
  expected_js present = field (ascii "expected") (str (ascii "present")) end
  expected_js (version token) =
      field (ascii "expected") (str (ascii "version")) (field (ascii "version") (str token) end)

  unfoldable pub condition_js : Condition → Js N
  unfolding target_js expected_js
  condition_js c = obj (field (ascii "target") (target_js c.target) (expected_js c.expected))

  unfoldable pub operation_js : Operation N → Js N
  operation_js (set k v) = obj (
      field (ascii "op") (str (ascii "set"))
        (field (ascii "key") (str k) (field (ascii "value") v end)))
  operation_js (delete_key k) =
      obj (field (ascii "op") (str (ascii "delete")) (field (ascii "key") (str k) end))
  operation_js (put collection item) = obj (
      field (ascii "op") (str (ascii "put"))
        (field (ascii "collection") (str collection) (field (ascii "item") (obj item) end)))
  operation_js (remove collection id) = obj (
      field (ascii "op") (str (ascii "remove"))
        (field (ascii "collection") (str collection) (field (ascii "id") (str id) end)))

  unfoldable pub array_js : {A : Type 0} → (A → Js N) → List A → Items N
  array_js f [] = nil
  array_js f (a ∷ rest) = cons (f a) (array_js f rest)

  unfoldable pub outcome_js : Option (Js N) → Fields N
  outcome_js none = end
  outcome_js (some v) = field (ascii "outcome") v end

  abbrev request_schema : Js N
  request_schema = str (ascii "mirk-atomic-request/v1")

  -- `digestInput`
  unfoldable pub digest_input : List Condition → List (Operation N) → Option (Js N) → Fields N
  unfolding condition_js operation_js array_js outcome_js
  digest_input conditions operations outcome = field (ascii "schema") request_schema (
      field (ascii "conditions") (arr (array_js condition_js conditions))
        (field (ascii "operations") (arr (array_js operation_js operations)) (outcome_js outcome)))

  -- `{ ...digestInput, idempotency: { key } }`
  unfoldable pub with_idempotency : Str → Fields N → Fields N
  with_idempotency k fs = field (ascii "idempotency") (obj (field (ascii "key") (str k) end)) fs
