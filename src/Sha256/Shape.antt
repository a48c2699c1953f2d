-- ===== src/Sha256/Shape.antt =====
-- The shape of a digest (packages/store/src/canonical.ts): its words have at most 32 bits.
use mirk.Common.{
  ℕ, zero, suc, ◌+◌, ◌-◌, ◌*◌, ◌/◌, ◌%◌, ◌^◌, ◌≤◌, ◌<◌, ◌≡◌, refl, ◌⊎◌, inl, inr, List, [], ◌∷◌,
  arith, All, All-append, length, length-append, ltb, Bool-cases,
}
use mirk.Canonical.{hex_digit}
use mirk.Text.{Str}
use mirk.Sha256.{
  Hash, initial, add_hash, compress, blocks, padded, hex_from, fill, pad_start, hex, hex_words,
  hash_hex, sha256_hex_bytes, sha256_hex, utf8,
}

-- The units of 0 to 9 and of a to f.
abbrev pub IsHexDigit : ℕ → Type 0
IsHexDigit u = ((48 ≤ u) × (u ≤ 57)) ⊎ ((97 ≤ u) × (u ≤ 102))

hex_digit-IsHexDigit : (d : ℕ) → d < 16 → IsHexDigit (hex_digit d)
hex_digit-IsHexDigit d h = ground arith

hex_from-IsHexDigit : (f n : ℕ) (acc : Str) → All IsHexDigit acc → All IsHexDigit (hex_from f n acc)
unfolding hex_from
hex_from-IsHexDigit zero n acc h = h
hex_from-IsHexDigit (suc f) n acc h =
    let here = hex_digit-IsHexDigit (n % 16) (omega arith) in
    elim (Bool-cases (ltb n 16)) [
      | inl small ↦ rw small (here, h)
      | inr large ↦ rw large (hex_from-IsHexDigit f (n / 16) (hex_digit (n % 16) ∷ acc) (here, h))
    ]

fill-IsHexDigit : (n : ℕ) → All IsHexDigit (fill n)
unfolding fill
fill-IsHexDigit zero = tt
fill-IsHexDigit (suc n) = (inl (omega arith, omega arith), fill-IsHexDigit n)

-- The number is written with that many digits at most.
abbrev HasPlaces : ℕ → ℕ → Type 0
HasPlaces zero n = ⊥
HasPlaces (suc zero) n = n < 16
HasPlaces (suc (suc k)) n = HasPlaces (suc k) (n / 16)

length-hex_from :
    (k f n : ℕ) (acc : Str) → HasPlaces k n → length (hex_from f n acc) ≤ k + length acc
unfolding hex_from
length-hex_from zero f n acc h = absurd h
length-hex_from (suc k) zero n acc h = omega arith
length-hex_from (suc zero) (suc f) n acc h = ground (arith, h)
length-hex_from (suc (suc k)) (suc f) n acc h = elim (Bool-cases (ltb n 16)) [
  | inl small ↦ rw small (omega arith)
  | inr large ↦
      rw large (omega (arith, length-hex_from (suc k) f (n / 16) (hex_digit (n % 16) ∷ acc) h))
]

length-fill : (n : ℕ) → length (fill n) ≡ n
unfolding fill
length-fill zero = refl
length-fill (suc n) = omega (arith, length-fill n)

length-pad_start : (width : ℕ) (s : Str) → length s ≤ width → length (pad_start width s) ≡ width
unfolding pad_start
length-pad_start width s h =
    omega (arith, length-append (fill (width - length s)) s, length-fill (width - length s))

-- Eight digits.
abbrev IsPart : Str → Type 0
IsPart s = (length s ≡ 8) × All IsHexDigit s

hex-IsPart : (w : ℕ) → w < 2 ^ 32 → IsPart (hex w)
unfolding hex pad_start
hex-IsPart w h =
    let digits = hex_from (suc w) w [] in
    let short : length digits ≤ 8 = length-hex_from 8 (suc w) w [] (omega arith) in
    (
      length-pad_start 8 digits short,
      All-append IsHexDigit (fill (8 - length digits)) digits (fill-IsHexDigit (8 - length digits))
          (hex_from-IsHexDigit (suc w) w [] tt),
    )

abbrev AreWords : Hash → Type 0
AreWords s = All (λ w. w < 2 ^ 32) (s.a ∷ s.b ∷ s.c ∷ s.d ∷ s.e ∷ s.f ∷ s.g ∷ s.h ∷ [])

compress-AreWords : (s : Hash) (block : List ℕ) → AreWords (compress s block)
unfolding compress add_hash
compress-AreWords s block = omega arith

blocks-AreWords :
    (s : Hash) (left : ℕ) (block bytes : List ℕ) → AreWords s → AreWords (blocks s left block bytes)
unfolding blocks
blocks-AreWords s left block [] h = h
blocks-AreWords s left block (p ∷ []) h = h
blocks-AreWords s left block (p ∷ q ∷ []) h = h
blocks-AreWords s left block (p ∷ q ∷ r ∷ []) h = h
blocks-AreWords s zero block (p ∷ q ∷ r ∷ t ∷ rest) h =
    let w = p * 2 ^ 24 + q * 2 ^ 16 + r * 2 ^ 8 + t in
    blocks-AreWords (compress s (w ∷ block)) 15 [] rest (compress-AreWords s (w ∷ block))
blocks-AreWords s (suc n) block (p ∷ q ∷ r ∷ t ∷ rest) h =
    blocks-AreWords s n ((p * 2 ^ 24 + q * 2 ^ 16 + r * 2 ^ 8 + t) ∷ block) rest h

hex_words-IsHexDigit :
    (ws : List ℕ)
    → All (λ w. w < 2 ^ 32) ws
    → (length (hex_words ws) ≡ 8 * length ws) × All IsHexDigit (hex_words ws)
unfolding hex_words
hex_words-IsHexDigit [] h = (refl, tt)
hex_words-IsHexDigit (w ∷ ws) h =
    let (eight, digits) = hex-IsPart w h.0 in
    let (rest, more) = hex_words-IsHexDigit ws h.1 in
    (
      omega (arith, length-append (hex w) (hex_words ws), eight, rest),
      All-append IsHexDigit (hex w) (hex_words ws) digits more,
    )

sha256_hex_bytes-IsHexDigit :
    (bytes : List ℕ)
    → (length (sha256_hex_bytes bytes) ≡ 64) × All IsHexDigit (sha256_hex_bytes bytes)
unfolding sha256_hex_bytes hash_hex
sha256_hex_bytes-IsHexDigit bytes =
    let s = blocks initial 15 [] (padded bytes) in
    hex_words-IsHexDigit (s.a ∷ s.b ∷ s.c ∷ s.d ∷ s.e ∷ s.f ∷ s.g ∷ s.h ∷ [])
      (blocks-AreWords initial 15 [] (padded bytes) (omega arith))

-- The digest of every text has 64 units, each a lowercase hexadecimal digit.
pub sha256_hex-IsHexDigit :
    (text : Str) → (length (sha256_hex text) ≡ 64) × All IsHexDigit (sha256_hex text)
unfolding sha256_hex
sha256_hex-IsHexDigit text = sha256_hex_bytes-IsHexDigit (utf8 text)
