-- ===== src/Fixtures/Refs.antt =====
-- References to fixtures, `type:id` (packages/fixtures/src/refs.ts).
pub mod Grammar
use mirk.Common.{
  ℕ, zero, suc, Bool, true, false, ◌&&◌, ◌||◌, not, Option, none, some, [], ◌∷◌, ◌++◌, take, drop,
  length, leb, ◌==◌, if◌then◌else◌,
}
use mirk.Common.Result.{Result, ok, err}
use mirk.Text.{Str, ascii}
use mirk.Js.{Js, str, obj, instance_of, at}

abbrev pub one_later : Option ℕ → Option ℕ
one_later none = none
one_later (some i) = some (suc i)

-- `s.indexOf(u)` of one unit
unfoldable pub index_of : ℕ → Str → Option ℕ
index_of u [] = none
index_of u (v ∷ s) = if v == u then some 0 else one_later (index_of u s)

unfoldable pub includes_unit : ℕ → Str → Bool
includes_unit u [] = false
includes_unit u (v ∷ s) = v == u || includes_unit u s

abbrev pub is_letter : ℕ → Bool
is_letter u = leb b'A' u && leb u b'Z' || leb b'a' u && leb u b'z'

abbrev pub is_type_unit : ℕ → Bool
is_type_unit u = is_letter u || leb b'0' u && leb u b'9' || u == b'_' || u == b'-'

-- `\s`
unfoldable pub is_space : ℕ → Bool
is_space u =
    leb 9 u && leb u 13
    || u == 32
    || u == 0xA0
    || u == 0x1680
    || leb 0x2000 u && leb u 0x200A
    || u == 0x2028
    || u == 0x2029
    || u == 0x202F
    || u == 0x205F
    || u == 0x3000
    || u == 0xFEFF

unfoldable pub every_unit : (ℕ → Bool) → Str → Bool
every_unit test [] = true
every_unit test (u ∷ s) = test u && every_unit test s

-- `TYPE_RE.test(s)`
unfoldable pub type_re : Str → Bool
unfolding every_unit
type_re [] = false
type_re (u ∷ s) = is_letter u && every_unit is_type_unit s

-- `ID_RE.test(s)`
unfoldable pub is_id_unit : ℕ → Bool
unfolding is_space
is_id_unit u = not (u == b':' || is_space u)

unfoldable pub id_re : Str → Bool
unfolding every_unit is_id_unit
id_re [] = false
id_re (u ∷ s) = every_unit is_id_unit (u ∷ s)

pub record ParsedRef : Type 0 where
  pub type_name : Str
  pub id : Str

-- The error of `invalidRef`.
pub data RefError : Type 0 where
  invalid_ref : RefError

-- The two slices, tested.
unfoldable pub check_parts : Str → Str → Result RefError ParsedRef
unfolding type_re id_re
check_parts type_name id =
    if type_re type_name && id_re id
    then ok (record { type_name = type_name; id = id })
    else err invalid_ref

-- With the place of the first colon.
unfoldable pub parse_at : Option ℕ → Str → Result RefError ParsedRef
unfolding check_parts includes_unit
parse_at none s = err invalid_ref
parse_at (some zero) s = err invalid_ref
parse_at (some (suc i)) s =
    if suc (suc i) == length s || includes_unit b':' (drop (suc (suc i)) s)
    then err invalid_ref
    else check_parts (take (suc i) s) (drop (suc (suc i)) s)

-- `parseRef(ref)`
unfoldable pub parse_ref : Str → Result RefError ParsedRef
unfolding parse_at index_of
parse_ref s = parse_at (index_of b':' s) s

-- `formatRef(type, id)`
unfoldable pub format_ref : Str → Str → Str
format_ref type_name id = type_name ++ b':' ∷ id

-- `isCanonicalRef(value)`
unfoldable pub is_canonical_ref : Str → Bool
unfolding parse_ref
is_canonical_ref s = elim (parse_ref s) [ ok p ↦ true | err e ↦ false ]

module _ {N : Type 0} where
  -- The text of a property that an object has, for `typeof o[k] === "string"`.
  unfoldable pub text_of : Js N → Option Str
  text_of (str s) = some s
  text_of _ = none

  unfoldable pub text_property : Str → Js N → Option Str
  unfolding text_of
  text_property k (obj fs) = text_of (at k fs)
  text_property k (instance_of fs) = text_of (at k fs)
  text_property k _ = none

  -- `isExplicitRef(value)`, with the reference.
  unfoldable pub explicit_ref : Js N → Option Str
  unfolding text_property
  explicit_ref v = text_property (ascii "$ref") v
