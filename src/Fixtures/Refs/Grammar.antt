-- ===== src/Fixtures/Refs/Grammar.antt =====
-- `parseRef` reads back what `formatRef` writes, and nothing else (packages/fixtures/src/refs.ts).
use mirk.Common.{
  ℕ, inl, inr, zero, suc, ◌≡◌, refl, ◌↔◌, true, false, none, some, [], ◌∷◌, ◌++◌, arith, length,
  take, drop, length-append, take_append, ◌==◌, Bool-cases, Option, Option-cases,
}
use mirk.Common.Result.{ok}
use mirk.Text.{Str}
use mirk.Fixtures.Refs.{
  index_of, includes_unit, every_unit, is_type_unit, is_id_unit, type_re, id_re, ParsedRef,
  check_parts, parse_at, parse_ref, format_ref,
}

-- A text before a colon has none of its own.
index_of-append :
    (t r : Str) → includes_unit b':' t ≡ false → index_of b':' (t ++ b':' ∷ r) ≡ some (length t)
unfolding index_of includes_unit
index_of-append [] r h = refl
index_of-append (u ∷ t) r h = ground (arith, index_of-append t r)

-- Splitting at the place that was found gives the text back.
take-index_of : (s : Str) (i : ℕ) → index_of b':' s ≡ some i → take i s ++ b':' ∷ drop (suc i) s ≡ s
unfolding index_of
take-index_of [] i h = cc
take-index_of (u ∷ s) i h = elim (Bool-cases (u == b':')) [
  | inl e ↦ ground arith
  | inr e ↦ elim (Option-cases (index_of b':' s)) [
    | inl gone ↦ ground arith
    | inr (j, found) ↦ ground (arith, take-index_of s j found)
  ]
]

type_unit-includes : (t : Str) → every_unit is_type_unit t ≡ true → includes_unit b':' t ≡ false
unfolding every_unit includes_unit
type_unit-includes [] h = refl
type_unit-includes (u ∷ t) h = ground (arith, type_unit-includes t)

type_re-includes : (t : Str) → type_re t ≡ true → includes_unit b':' t ≡ false
unfolding type_re includes_unit
type_re-includes [] h = cc
type_re-includes (u ∷ t) h = ground (arith, type_unit-includes t)

is_id_unit-colon : (u : ℕ) → is_id_unit u ≡ true → (u == b':') ≡ false
unfolding is_id_unit
is_id_unit-colon u h = ground arith

id_unit-includes : (t : Str) → every_unit is_id_unit t ≡ true → includes_unit b':' t ≡ false
unfolding every_unit includes_unit
id_unit-includes [] h = refl
id_unit-includes (u ∷ t) h = ground (arith, id_unit-includes t, is_id_unit-colon u)

id_re-includes : (t : Str) → id_re t ≡ true → includes_unit b':' t ≡ false
unfolding id_re
id_re-includes [] h = cc
id_re-includes (u ∷ t) h = id_unit-includes (u ∷ t) h

drop-append_colon : (t i : Str) → drop (suc (length t)) (t ++ b':' ∷ i) ≡ i
drop-append_colon [] i = refl
drop-append_colon (u ∷ t) i = drop-append_colon t i

parts-parse_at :
    (t i : Str)
    → type_re t ≡ true
    → id_re i ≡ true
    → parse_at (some (length t)) (t ++ b':' ∷ i) ≡ ok (record { type_name = t; id = i })
unfolding parse_at check_parts
parts-parse_at [] i ht hi = unfold type_re in cc ht
parts-parse_at (u ∷ t) [] ht hi = unfold id_re in cc hi
parts-parse_at (u ∷ t) (v ∷ i) ht hi = ground (
  arith,
  id_re-includes (v ∷ i) hi,
  drop-append_colon t (v ∷ i),
  take_append t (b':' ∷ v ∷ i),
  length-append t (b':' ∷ v ∷ i),
)

check_parts-eq_ok :
    (t i : Str) (p : ParsedRef)
    → check_parts t i ≡ ok p
    → (p.type_name ≡ t) × (p.id ≡ i) × (type_re t ≡ true) × (id_re i ≡ true)
unfolding check_parts
check_parts-eq_ok t i p h = ground arith

parse_at-eq_ok :
    (s : Str) (p : ParsedRef) (o : Option ℕ)
    → index_of b':' s ≡ o
    → parse_at o s ≡ ok p
    → (s ≡ p.type_name ++ b':' ∷ p.id) × (type_re p.type_name ≡ true) × (id_re p.id ≡ true)
unfolding parse_at
parse_at-eq_ok s p none found h = cc
parse_at-eq_ok s p (some zero) found h = cc
parse_at-eq_ok s p (some (suc i)) found h = ground (
  arith,
  take-index_of s (suc i) found,
  check_parts-eq_ok (take (suc i) s) (drop (suc (suc i)) s) p,
)

-- parseRef answers a type name and an id exactly for the text that formatRef gives for them, if
-- the two match their expressions.
pub parse_ref-format_ref :
    (s : Str) (p : ParsedRef)
    → (parse_ref s ≡ ok p)
      ↔ ((s ≡ format_ref p.type_name p.id) × (type_re p.type_name ≡ true) × (id_re p.id ≡ true))
unfolding parse_ref format_ref
parse_ref-format_ref s p = (
  λ h. parse_at-eq_ok s p (index_of b':' s) refl h,
  λ h. rw h.0 (
      rw (index_of-append p.type_name p.id (type_re-includes p.type_name h.1))
        (parts-parse_at p.type_name p.id h.1 h.2)),
)
