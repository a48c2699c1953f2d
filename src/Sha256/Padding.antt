-- ===== src/Sha256/Padding.antt =====
-- The padding of a message keeps the message (packages/store/src/canonical.ts).
use mirk.Common.{
  ℕ, zero, suc, ◌+◌, ◌-◌, ◌*◌, ◌/◌, ◌^◌, ◌≡◌, refl, List, ◌∷◌, ◌++◌, arith, length, length-append,
}
use mirk.Sha256.{zeros, padded_length, bytes_of}

length-zeros : (n : ℕ) → length (zeros n) ≡ n
unfolding zeros
length-zeros zero = refl
length-zeros (suc n) = omega (arith, length-zeros n)

-- The message with its mark and the zeros.
abbrev marked : List ℕ → List ℕ
marked bytes = bytes ++ (0x80 ∷ zeros (padded_length (length bytes) - length bytes - 9))

-- The length in bits.
abbrev bits : ℕ → List ℕ
bits n = bytes_of (n * 8 / 2 ^ 32) ++ bytes_of (n * 8)

length-marked : (bytes : List ℕ) → length (marked bytes) + 8 ≡ padded_length (length bytes)
length-marked bytes =
    let k = padded_length (length bytes) - length bytes - 9 in
    omega (arith, length-append bytes (0x80 ∷ zeros k), length-zeros k)
