-- ===== src/Decimal/Laws.antt =====
-- Decimal texts are made of digits, and different numbers have different texts.
use mirk.Common.{
  ℕ, zero, suc, ◌+◌, ◌*◌, ◌-◌, ◌/◌, ◌%◌, ◌≤◌, ◌<◌, ◌≡◌, refl, sym, ap, ◌∙◌, inl, inr, [], ◌∷◌, ◌++◌,
  arith, All, ltb, Bool-cases,
}
use mirk.Text.{Str}
use mirk.Decimal.{decimal, decimal_from}

-- The number that a text of digits stands for, after the digits read so far.
read : ℕ → Str → ℕ
read n [] = n
read n (d ∷ ds) = read (n * 10 + (d - 48)) ds

read-decimal_from : (f n : ℕ) (acc : Str) → n < f → read 0 (decimal_from f n acc) ≡ read n acc
unfolding decimal_from
read-decimal_from zero n acc h = elim h [ ]
read-decimal_from (suc f) n acc h = elim (Bool-cases (ltb n 10)) [
  | inl small ↦ rw small (unfold read in ap (λ k. read k acc) (ground arith))
  | inr large ↦ rw large (
      read-decimal_from f (n / 10) ((48 + n % 10) ∷ acc) (ground arith)
      ∙ (unfold read in ap (λ k. read k acc) (omega arith)))
]

read-decimal : (n : ℕ) → read 0 (decimal n) ≡ n
unfolding decimal
read-decimal n = read-decimal_from (suc n) n [] (omega arith) ∙ (unfold read in refl)

pub decimal-injective : (m n : ℕ) → decimal m ≡ decimal n → m ≡ n
decimal-injective m n e = sym (read-decimal m) ∙ ap (read 0) e ∙ read-decimal n

-- The units of the digits 0 to 9.
abbrev pub IsDigit : ℕ → Type 0
IsDigit d = (48 ≤ d) × (d ≤ 57)

decimal_from-IsDigit : (f n : ℕ) (acc : Str) → All IsDigit acc → All IsDigit (decimal_from f n acc)
unfolding decimal_from
decimal_from-IsDigit zero n acc h = h
decimal_from-IsDigit (suc f) n acc h = elim (Bool-cases (ltb n 10)) [
  | inl small ↦ rw small (omega arith, h)
  | inr large ↦ rw large (decimal_from-IsDigit f (n / 10) ((48 + n % 10) ∷ acc) (omega arith, h))
]

pub decimal-IsDigit : (n : ℕ) → All IsDigit (decimal n)
unfolding decimal
decimal-IsDigit n = decimal_from-IsDigit (suc n) n [] tt

-- A text of digits ends at the first unit that is none.
digits-prefix :
    (a b : Str) (c : ℕ) (r s : Str)
    → All IsDigit a
    → All IsDigit b
    → 57 < c
    → a ++ c ∷ r ≡ b ++ c ∷ s
    → (a ≡ b) × (r ≡ s)
digits-prefix [] [] c r s ha hb h e = (refl, cc e)
digits-prefix [] (y ∷ b) c r s ha hb h e = absurd (ground arith)
digits-prefix (x ∷ a) [] c r s ha hb h e = absurd (ground arith)
digits-prefix (x ∷ a) (y ∷ b) c r s ha hb h e =
    let (p, q) = digits-prefix a b c r s ha.1 hb.1 h (cc e) in (cc (e, p), q)

-- A number written before a unit that is no digit can be read back, with the rest.
pub decimal-prefix :
    (m n c : ℕ) (r s : Str) → 57 < c → decimal m ++ c ∷ r ≡ decimal n ++ c ∷ s → (m ≡ n) × (r ≡ s)
decimal-prefix m n c r s h e =
    let (p, q) =
      digits-prefix (decimal m) (decimal n) c r s (decimal-IsDigit m) (decimal-IsDigit n) h e in
    (decimal-injective m n p, q)
