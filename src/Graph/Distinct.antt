-- ===== src/Graph/Distinct.antt =====
-- Lists of names without repeats, as the sets of the program are kept.
use mirk.Common.{
  suc, ◌≤◌, ◌≡◌, ◌≢◌, inl, inr, refl, ap, ◌∙◌, true, false, List, [], ◌∷◌, ◌++◌, length, Member,
  arith, Bool-cases, if◌then◌else◌,
}
use mirk.Text.{Str, str_eq}
use mirk.Text.Units.{str_eq_iff}
use mirk.Graph.{includes}
use mirk.Graph.Sets.{includes_iff, includes-append_last}

abbrev pub NoRepeat : List Str → Type 0
NoRepeat [] = Unit
NoRepeat (t ∷ ts) = (includes t ts ≡ false) × NoRepeat ts

pub NoRepeat-append_last :
    (t : Str) (ts : List Str) → includes t ts ≡ false → NoRepeat ts → NoRepeat (ts ++ t ∷ [])
unfolding includes
NoRepeat-append_last t [] e h = (refl, tt)
NoRepeat-append_last t (u ∷ ts) e h = (
  ground (arith, includes-append_last u t ts, h.0, str_eq_iff t u, str_eq_iff u t),
  NoRepeat-append_last t ts (ground arith) h.1,
)

pub remove_first : Str → List Str → List Str
remove_first x [] = []
remove_first x (y ∷ ys) = let rest = y ∷ remove_first x ys in if str_eq y x then ys else rest

pub length-remove_first :
    (x : Str) (ys : List Str) → Member x ys → suc (length (remove_first x ys)) ≡ length ys
unfolding remove_first
length-remove_first x [] m = absurd m
length-remove_first x (y ∷ ys) m = elim (Bool-cases (str_eq y x)) [
  | inl e ↦ ground arith
  | inr e ↦ elim m [
    | inl p ↦ ground (arith, str_eq_iff y x)
    | inr p ↦ ground (arith, length-remove_first x ys p)
  ]
]

pub Member-remove_first :
    (x z : Str) (ys : List Str) → z ≢ x → Member z ys → Member z (remove_first x ys)
unfolding remove_first
Member-remove_first x z [] ne m = m
Member-remove_first x z (y ∷ ys) ne m = elim (Bool-cases (str_eq y x)) [
  | inl e ↦ ground (arith, str_eq_iff y x)
  | inr e ↦ ground (arith, Member-remove_first x z ys ne)
]

-- Names without repeats that are all in a list are no more than the list is long.
pub NoRepeat-length :
    (xs ys : List Str)
    → NoRepeat xs
    → ((x : Str) → Member x xs → Member x ys)
    → length xs ≤ length ys
NoRepeat-length [] ys h sub = omega arith
NoRepeat-length (x ∷ xs) ys h sub =
    let apart = λ (z : Str) (m : Member z xs) (e : z ≡ x).
      let there : includes z xs ≡ true = (includes_iff z xs).1 m in
      let gone : includes z xs ≡ false = ap (λ k. includes k xs) e ∙ h.0 in
      absurd (ground (arith, there, gone)) in
    let rest =
      NoRepeat-length xs (remove_first x ys) h.1
        (λ z m. Member-remove_first x z ys (apart z m) (sub z (inr m))) in
    omega (arith, length-remove_first x ys (sub x (inl refl)))
