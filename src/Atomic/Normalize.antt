-- ===== src/Atomic/Normalize.antt =====
-- The parts of an atomic request, read from the value that a caller gave (packages/store/src/atomic.ts).
use mirk.Common.{
  ℕ, ◌+◌, Bool, false, not, ◌||◌, Option, none, some, List, [], ◌∷◌, Ordering, length,
  if◌then◌else◌,
}
use mirk.Common.Result.{Result, ok, err, ◌>>=◌, ◌>>◌, require}
use mirk.Text.{Str, ascii, str_eq, is_empty}
use mirk.Sha256.{utf8}
use mirk.Js.{Number, Js, arr, obj, str, Items, nil, cons, hole, Fields, at}
use mirk.Canonical.{canonical_json, clone_json, clone_object}
use mirk.Atomic.Target.{Target, key, record_of, compare_targets}
use mirk.Atomic.Shape.{
  Rejection, invalid_request, unsupported_operation, uncaught, Condition, Operation, set,
  delete_key, put, remove, missing, present, version,
}

-- Strings, plain objects and arrays among the values.
abbrev pub string_of : {N : Type 0} → Js N → Option Str
string_of (str s) = some s
string_of _ = none

abbrev pub object_of : {N : Type 0} → Js N → Option (Fields N)
object_of (obj fs) = some fs
object_of _ = none

abbrev pub array_of : {N : Type 0} → Js N → Option (Items N)
array_of (arr xs) = some xs
array_of _ = none

-- The value, or the rejection where it has not the wanted form.
abbrev pub expect : {A : Type 0} → Option A → Result Rejection A
expect none = err invalid_request
expect (some a) = ok a

module _ {N : Type 0} where
  -- `targetFromUnknown`
  unfoldable pub target_from : Js N → Result Rejection Target
  target_from value = do
    fs ← expect (object_of value)
    kind ← expect (string_of (at (ascii "kind") fs))
    if str_eq kind (ascii "key")
        then (do k ← expect (string_of (at (ascii "key") fs)); ok (key k))
        else do
          require (str_eq kind (ascii "record")) invalid_request
          collection ← expect (string_of (at (ascii "collection") fs))
          require (not (is_empty collection)) invalid_request
          id ← expect (string_of (at (ascii "id") fs))
          ok (record_of collection id)

  -- `normalizeCondition`
  unfoldable pub normalize_condition : Js N → Result Rejection Condition
  normalize_condition value = do
    fs ← expect (object_of value)
    target ← target_from (at (ascii "target") fs)
    expected ← expect (string_of (at (ascii "expected") fs))
    if str_eq expected (ascii "missing")
        then ok (record { target = target; expected = missing })
        else if str_eq expected (ascii "present")
        then ok (record { target = target; expected = present })
        else do
          require (str_eq expected (ascii "version")) invalid_request
          token ← expect (string_of (at (ascii "version") fs))
          ok (record { target = target; expected = version token })

  -- The loop over an array, which refuses a hole.
  unfoldable pub normalize_all :
      {A : Type 0} → (Js N → Result Rejection A) → Items N → Result Rejection (List A)
  normalize_all f nil = ok []
  normalize_all f (cons v xs) = do a ← f v; rest ← normalize_all f xs; ok (a ∷ rest)
  normalize_all f (hole xs) = err invalid_request

  unfoldable pub count_slots : Items N → ℕ
  count_slots nil = 0
  count_slots (cons v xs) = count_slots xs + 1
  count_slots (hole xs) = count_slots xs + 1

-- A key that is in the set of those seen before.
unfoldable pub seen_before : Str → List Str → Bool
seen_before k [] = false
seen_before k (s ∷ seen) = str_eq s k || seen_before k seen

unfoldable pub has_repeat : List Str → List Str → Bool
unfolding seen_before
has_repeat seen [] = false
has_repeat seen (k ∷ ks) = seen_before k seen || has_repeat (k ∷ seen) ks

abbrev pub by_target : Condition → Condition → Ordering
by_target a b = compare_targets a.target b.target

abbrev pub max_atomic_outcome_bytes : ℕ
max_atomic_outcome_bytes = 65536

-- `encoder.encode(text).byteLength`
abbrev pub byte_length : Str → ℕ
byte_length text = length (utf8 text)

module _ {N : Type 0} ⦃number : Number N⦄ where
  -- `jsonSafe`
  unfoldable pub json_safe : Js N → Result Rejection (Unit {0})
  json_safe v = elim (canonical_json v) [ ok t ↦ ok tt | err e ↦ err invalid_request ]

  -- The text of a value that is known to have one.
  unfoldable pub text_of : Js N → Result Rejection Str
  text_of v = elim (canonical_json v) [ ok t ↦ ok t | err e ↦ err (uncaught e) ]

  -- `normalizeOperation`
  unfoldable pub normalize_operation : Js N → Result Rejection (Operation N)
  unfolding json_safe
  normalize_operation value = do
    fs ← expect (object_of value)
    op ← expect (string_of (at (ascii "op") fs))
    if str_eq op (ascii "set")
        then (do
          k ← expect (string_of (at (ascii "key") fs))
          json_safe (at (ascii "value") fs)
          ok (set k (clone_json (at (ascii "value") fs))))
        else if str_eq op (ascii "delete")
        then (do k ← expect (string_of (at (ascii "key") fs)); ok (delete_key k))
        else if str_eq op (ascii "put")
        then (do
          collection ← expect (string_of (at (ascii "collection") fs))
          require (not (is_empty collection)) invalid_request
          item ← expect (object_of (at (ascii "item") fs))
          _ ← expect (string_of (at (ascii "id") item))
          json_safe (obj item)
          ok (put collection (clone_object item)))
        else if str_eq op (ascii "remove")
        then (do
          collection ← expect (string_of (at (ascii "collection") fs))
          require (not (is_empty collection)) invalid_request
          id ← expect (string_of (at (ascii "id") fs))
          ok (remove collection id))
        else err unsupported_operation
