-- ===== src/Decimal.antt =====
-- The decimal text of a natural number, as `${n}` writes it.
pub mod Laws
use mirk.Common.{ℕ, zero, suc, ◌+◌, ◌/◌, ◌%◌, [], ◌∷◌, ltb, if◌then◌else◌}
use mirk.Text.{Str}

-- The digits are found last first; `suc n` rounds are enough for `n`.
unfoldable pub decimal_from : ℕ → ℕ → Str → Str
decimal_from zero n acc = acc
decimal_from (suc f) n acc =
    let digits = (48 + n % 10) ∷ acc in
    let rest = decimal_from f (n / 10) digits in if ltb n 10 then digits else rest

unfoldable pub decimal : ℕ → Str
unfolding decimal_from
decimal n = decimal_from (suc n) n []
