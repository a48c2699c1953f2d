-- ===== src/Text.antt =====
-- Strings as the program sees them, and the order of packages/store/src/order.ts. A string is its
-- list of UTF-16 code units, lone surrogates included.
pub mod Units
pub mod Preorder
use mirk.Common.{
  ℕ, ◌+◌, ◌-◌, ◌*◌, Bool, true, false, ◌&&◌, List, [], ◌∷◌, Ordering, leb, ltb, ◌==◌, if◌then◌else◌,
}
use Prim.Native.Char.{code}
use Prim.Native.String.{String}

abbrev pub Str : Type 0
Str = List ℕ

-- `s.length === 0`
abbrev pub is_empty : Str → Bool
is_empty [] = true
is_empty (u ∷ s) = false

-- The code units of an ASCII literal.
abbrev pub ascii : String → Str
ascii String.[] = []
ascii (String.◌∷◌ c s) = code c ∷ ascii s

-- `a === b` on strings
unfoldable pub str_eq : Str → Str → Bool
str_eq [] [] = true
str_eq [] (y ∷ ys) = false
str_eq (x ∷ xs) [] = false
str_eq (x ∷ xs) (y ∷ ys) = x == y && str_eq xs ys

abbrev pub is_high : ℕ → Bool
is_high u = leb 0xD800 u && leb u 0xDBFF

abbrev pub is_low : ℕ → Bool
is_low u = leb 0xDC00 u && leb u 0xDFFF

-- `codePointAt` at a surrogate pair
abbrev pub astral : ℕ → ℕ → ℕ
astral hi lo = 0x10000 + (hi - 0xD800) * 0x400 + (lo - 0xDC00)

-- `Array.from(s)` with `codePointAt(0)` of each element: a surrogate pair is one element.
unfoldable pub code_points : Str → List ℕ
code_points [] = []
code_points (u ∷ []) = u ∷ []
code_points (u ∷ v ∷ r) = elim (is_high u && is_low v) [
  | true ↦ astral u v ∷ code_points r
  | false ↦ u ∷ code_points (v ∷ r)
]

-- The loop over the shared length, then the comparison of the lengths.
unfoldable pub compare_list : List ℕ → List ℕ → Ordering
compare_list [] [] = Ordering.eq
compare_list [] (y ∷ ys) = Ordering.lt
compare_list (x ∷ xs) [] = Ordering.gt
compare_list (x ∷ xs) (y ∷ ys) =
    let rest = compare_list xs ys in
    if x == y then rest else if ltb x y then Ordering.lt else Ordering.gt

-- The sign of `compareCodePoints(a, b)`.
unfoldable pub compare_code_points : Str → Str → Ordering
compare_code_points a b =
    if str_eq a b then Ordering.eq else compare_list (code_points a) (code_points b)
