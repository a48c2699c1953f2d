-- ===== src/Text/Units.antt =====
-- Equality of strings, and the order of their code points.
use mirk.Common.{
  ℕ, ◌+◌, ◌-◌, ◌/◌, ◌%◌, ◌<◌, ◌≡◌, refl, sym, ap, ◌∙◌, ◌↔◌, inl, inr, true, List, [], ◌∷◌, Ordering,
  arith, ◌&&◌, ltb, Bool-cases, All, if◌then◌else◌,
}
use mirk.Text.{Str, is_high, is_low, astral, str_eq, code_points, compare_list, compare_code_points}

pub str_eq_iff : (a b : Str) → (str_eq a b ≡ true) ↔ (a ≡ b)
unfolding str_eq
str_eq_iff [] [] = ground arith
str_eq_iff [] (y ∷ ys) = ground arith
str_eq_iff (x ∷ xs) [] = ground arith
str_eq_iff (x ∷ xs) (y ∷ ys) = ground (arith, str_eq_iff xs ys)

pub str_eq_refl : (a : Str) → str_eq a a ≡ true
str_eq_refl a = (str_eq_iff a a).1 refl

-- The comparison with the arguments exchanged.
abbrev pub flip : Ordering → Ordering
flip Ordering.lt = Ordering.gt
flip Ordering.eq = Ordering.eq
flip Ordering.gt = Ordering.lt

pub compare_list-eq_iff : (a b : List ℕ) → (compare_list a b ≡ Ordering.eq) ↔ (a ≡ b)
unfolding compare_list
compare_list-eq_iff [] [] = ground arith
compare_list-eq_iff [] (y ∷ ys) = ground arith
compare_list-eq_iff (x ∷ xs) [] = ground arith
compare_list-eq_iff (x ∷ xs) (y ∷ ys) = ground (arith, compare_list-eq_iff xs ys)

pub compare_list-flip : (a b : List ℕ) → compare_list b a ≡ flip (compare_list a b)
unfolding compare_list
compare_list-flip [] [] = refl
compare_list-flip [] (y ∷ ys) = refl
compare_list-flip (x ∷ xs) [] = refl
compare_list-flip (x ∷ xs) (y ∷ ys) = ground (arith, compare_list-flip xs ys)

pub compare_list_trans :
    (a b c : List ℕ)
    → compare_list a b ≡ Ordering.lt
    → compare_list b c ≡ Ordering.lt
    → compare_list a c ≡ Ordering.lt
unfolding compare_list
compare_list_trans [] [] [] p q = p
compare_list_trans [] (y ∷ ys) [] p q = ground arith
compare_list_trans [] b (z ∷ zs) p q = refl
compare_list_trans (x ∷ xs) [] c p q = ground arith
compare_list_trans (x ∷ xs) (y ∷ ys) [] p q = ground arith
compare_list_trans (x ∷ xs) (y ∷ ys) (z ∷ zs) p q = ground (arith, compare_list_trans xs ys zs)

-- Every unit fits 16 bits, as JavaScript guarantees.
abbrev pub Units : Str → Type 0
Units = All (λ u. u < 65536)

-- The code units of a list of code points.
encode : List ℕ → Str
encode [] = []
encode (c ∷ cs) =
    let rest = encode cs in
    if ltb c 65536
    then c ∷ rest
    else (0xD800 + (c - 65536) / 1024) ∷ (0xDC00 + (c - 65536) % 1024) ∷ rest

encode-astral :
    (u v : ℕ) (cs : List ℕ)
    → (is_high u && is_low v) ≡ true
    → encode (astral u v ∷ cs) ≡ u ∷ v ∷ encode cs
unfolding encode
encode-astral u v cs h = ground arith

encode-plain : (u : ℕ) (cs : List ℕ) → u < 65536 → encode (u ∷ cs) ≡ u ∷ encode cs
unfolding encode
encode-plain u cs h = ground arith

encode-code_points : (a : Str) → Units a → encode (code_points a) ≡ a
unfolding code_points
encode-code_points [] ha = unfold encode in refl
encode-code_points (u ∷ []) ha = unfold encode in encode-plain u [] ha.0
encode-code_points (u ∷ v ∷ r) ha = elim (Bool-cases (is_high u && is_low v)) [
  | inl pair ↦
      rw (pair, code_points)
        (encode-astral u v _ pair ∙ ap (λ t. u ∷ v ∷ t) (encode-code_points r ha.1.1))
  | inr alone ↦
      rw (alone, code_points)
        (encode-plain u _ ha.0 ∙ ap (λ t. u ∷ t) (encode-code_points (v ∷ r) ha.1))
]

-- Different strings have different code points, lone surrogates included.
pub code_points-injective : (a b : Str) → Units a → Units b → code_points a ≡ code_points b → a ≡ b
code_points-injective a b ha hb e =
    sym (encode-code_points a ha) ∙ ap encode e ∙ encode-code_points b hb

-- On strings of 16-bit units compareCodePoints answers equal exactly for equal strings.
pub compare_code_points-eq_iff :
    (a b : Str) → Units a → Units b → (compare_code_points a b ≡ Ordering.eq) ↔ (a ≡ b)
unfolding compare_code_points
compare_code_points-eq_iff a b ha hb = ground (
  arith,
  str_eq_iff a b,
  compare_list-eq_iff (code_points a) (code_points b),
  code_points-injective a b ha hb,
)

pub compare_code_points-flip :
    (a b : Str) → compare_code_points b a ≡ flip (compare_code_points a b)
unfolding compare_code_points
compare_code_points-flip a b =
    ground
      (arith, str_eq_iff a b, str_eq_iff b a, compare_list-flip (code_points a) (code_points b))

-- The strict order of compareCodePoints is transitive.
pub compare_code_points_trans :
    (a b c : Str)
    → compare_code_points a b ≡ Ordering.lt
    → compare_code_points b c ≡ Ordering.lt
    → compare_code_points a c ≡ Ordering.lt
unfolding compare_code_points
compare_code_points_trans a b c p q = ground (
  arith,
  str_eq_iff a b,
  str_eq_iff b c,
  str_eq_iff a c,
  compare_list-flip (code_points a) (code_points b),
  compare_list_trans (code_points a) (code_points b) (code_points c),
)
