-- ===== src/Canonical.antt =====
-- Canonical JSON (packages/store/src/canonical.ts): the text that request digests are taken of. A
-- cyclic value and a symbol key cannot be written as a tree, so their two errors do not occur here.
pub mod Clone
use mirk.Common.{
  ℕ, ◌+◌, ◌/◌, ◌%◌, Bool, true, false, ◌&&◌, ◌||◌, List, [], ◌∷◌, ◌++◌, Ordering, ltb, ◌==◌,
  if◌then◌else◌,
}
use mirk.Common.Result.{Result, ok, err, ◌>>=◌}
use mirk.Text.{Str, ascii, is_high, is_low, compare_code_points}
use mirk.Sort.{sort}
use mirk.Js.{
  Number, Js, undefined, null, opaque, bool, num, str, arr, obj, instance_of, Items, nil, cons,
  hole, Fields, end, field, has_hole, from_entries,
}

pub data CanonicalError : Type 0 where
  non_finite_number not_json_safe sparse_array non_plain_object : CanonicalError

abbrev pub hex_digit : ℕ → ℕ
hex_digit d = if ltb d 10 then 48 + d else 87 + d

-- `\uXXXX`, in lowercase
unicode_escape : ℕ → Str
unicode_escape u =
    b'\\'
    ∷ b'u'
    ∷ hex_digit (u / 4096)
    ∷ hex_digit (u / 256 % 16)
    ∷ hex_digit (u / 16 % 16)
    ∷ hex_digit (u % 16)
    ∷ []

-- One unit that is no part of a surrogate pair.
escape_unit : ℕ → Str
unfolding unicode_escape
escape_unit u =
    if u == 34 || u == 92
    then b'\\' ∷ u ∷ []
    else if u == 8
    then ascii "\\b"
    else if u == 9
    then ascii "\\t"
    else if u == 10
    then ascii "\\n"
    else if u == 12
    then ascii "\\f"
    else if u == 13
    then ascii "\\r"
    else if ltb u 32 || is_high u || is_low u
    then unicode_escape u
    else u ∷ []

escape : Str → Str
unfolding escape_unit
escape [] = []
escape (u ∷ []) = escape_unit u
escape (u ∷ v ∷ r) = elim (is_high u && is_low v) [
  | true ↦ u ∷ v ∷ escape r
  | false ↦ escape_unit u ++ escape (v ∷ r)
]

-- `JSON.stringify` of a string
unfoldable pub quote : Str → Str
unfolding escape
quote s = 34 ∷ (escape s ++ 34 ∷ [])

-- `texts.join(",")`
unfoldable pub join_comma : List Str → Str
join_comma [] = []
join_comma (t ∷ []) = t
join_comma (t ∷ u ∷ ts) = t ++ b',' ∷ join_comma (u ∷ ts)

-- The first error in the order of the list, or all values.
unfoldable pub sequence : {E A : Type 0} → List (Result E A) → Result E (List A)
sequence [] = ok []
sequence (r ∷ rs) = do a ← r; rest ← sequence rs; ok (a ∷ rest)

unfoldable pub member_text : Str × Result CanonicalError Str → Result CanonicalError Str
unfolding quote
member_text (k, r) = do t ← r; ok (quote k ++ b':' ∷ t)

abbrev pub by_key : {A : Type 0} → Str × A → Str × A → Ordering
by_key (j, _) (k, _) = compare_code_points j k

unfoldable pub array_text : Bool → List (Result CanonicalError Str) → Result CanonicalError Str
unfolding sequence join_comma
array_text true texts = err sparse_array
array_text false texts = do ts ← sequence texts; ok (b'[' ∷ (join_comma ts ++ b']' ∷ []))

members : List (Str × Result CanonicalError Str) → List (Result CanonicalError Str)
unfolding member_text
members [] = []
members (m ∷ ms) = member_text m ∷ members ms

-- The members in the order of their keys.
unfoldable pub object_text : List (Str × Result CanonicalError Str) → Result CanonicalError Str
unfolding members sequence join_comma sort
object_text texts = do
  ts ← sequence (members (sort by_key texts))
  ok (b'{' ∷ (join_comma ts ++ b'}' ∷ []))

module _ {N : Type 0} ⦃number : Number N⦄ where
  unfoldable mutual
    unfolding array_text object_text has_hole quote

    pub canonical_value : Js N → Result CanonicalError Str
    canonical_value undefined = err not_json_safe
    canonical_value null = ok (ascii "null")
    canonical_value opaque = err not_json_safe
    canonical_value (bool b) = ok (if b then ascii "true" else ascii "false")
    canonical_value (num n) =
        if number.is_finite n then ok (number.text n) else err non_finite_number
    canonical_value (str s) = ok (quote s)
    canonical_value (arr xs) = array_text (has_hole xs) (canonical_items xs)
    canonical_value (obj fs) = object_text (canonical_fields fs)
    canonical_value (instance_of fs) = err non_plain_object

    pub canonical_items : Items N → List (Result CanonicalError Str)
    canonical_items nil = []
    canonical_items (cons v xs) = canonical_value v ∷ canonical_items xs
    canonical_items (hole xs) = canonical_items xs

    pub canonical_fields : Fields N → List (Str × Result CanonicalError Str)
    canonical_fields end = []
    canonical_fields (field k v fs) = (k, canonical_value v) ∷ canonical_fields fs

  -- `canonicalJson(value)`
  unfoldable pub canonical_json : Js N → Result CanonicalError Str
  canonical_json v = canonical_value v

-- `cloneJson(value)`: the value that its canonical text parses to. Its objects have their members in
-- the order of the text.
unfoldable mutual
  unfolding from_entries sort

  pub clone_json : {N : Type 0} → Js N → Js N
  clone_json (arr xs) = arr (clone_items xs)
  clone_json (obj fs) = obj (from_entries (sort by_key (clone_fields fs)))
  clone_json v = v

  pub clone_items : {N : Type 0} → Items N → Items N
  clone_items nil = nil
  clone_items (cons v xs) = cons (clone_json v) (clone_items xs)
  clone_items (hole xs) = hole (clone_items xs)

  pub clone_fields : {N : Type 0} → Fields N → List (Str × Js N)
  clone_fields end = []
  clone_fields (field k v fs) = (k, clone_json v) ∷ clone_fields fs

-- `cloneJson` of a plain object
unfoldable pub clone_object : {N : Type 0} → Fields N → Fields N
unfolding clone_json
clone_object fs = from_entries (sort by_key (clone_fields fs))
