-- ===== src/Sha256.antt =====
-- SHA-256 over bytes and over text (packages/store/src/canonical.ts). A `Uint32` is a number below
-- 2 ^ 32; every operation that wraps around says so.
pub mod Shape
pub mod Padding
use Prim.Native.Nat.{bit_and, bit_or, bit_xor}
use mirk.Common.{
  ℕ, zero, suc, ◌+◌, ◌-◌, ◌*◌, ◌/◌, ◌%◌, ◌^◌, none, some, List, [], ◌∷◌, ◌++◌, ltb, if◌then◌else◌,
  get_elem?, length,
}
use mirk.Text.{Str, code_points, is_high, is_low}
use mirk.Canonical.{hex_digit}

abbrev word : ℕ → ℕ
word x = x % 2 ^ 32

shr : ℕ → ℕ → ℕ
shr x n = x / 2 ^ n

-- `(x >>> n) | (x << (32 - n))`
rotr : ℕ → ℕ → ℕ
unfolding shr
rotr x n = bit_or (shr x n) (word (x * 2 ^ (32 - n)))

xor3 : ℕ → ℕ → ℕ → ℕ
xor3 a b c = bit_xor (bit_xor a b) c

abbrev constants : List ℕ
constants =
    0x428a2f98 ∷ 0x71374491 ∷ 0xb5c0fbcf ∷ 0xe9b5dba5 ∷ 0x3956c25b ∷ 0x59f111f1 ∷ 0x923f82a4
    ∷ 0xab1c5ed5 ∷ 0xd807aa98 ∷ 0x12835b01 ∷ 0x243185be ∷ 0x550c7dc3 ∷ 0x72be5d74 ∷ 0x80deb1fe
    ∷ 0x9bdc06a7 ∷ 0xc19bf174 ∷ 0xe49b69c1 ∷ 0xefbe4786 ∷ 0x0fc19dc6 ∷ 0x240ca1cc ∷ 0x2de92c6f
    ∷ 0x4a7484aa ∷ 0x5cb0a9dc ∷ 0x76f988da ∷ 0x983e5152 ∷ 0xa831c66d ∷ 0xb00327c8 ∷ 0xbf597fc7
    ∷ 0xc6e00bf3 ∷ 0xd5a79147 ∷ 0x06ca6351 ∷ 0x14292967 ∷ 0x27b70a85 ∷ 0x2e1b2138 ∷ 0x4d2c6dfc
    ∷ 0x53380d13 ∷ 0x650a7354 ∷ 0x766a0abb ∷ 0x81c2c92e ∷ 0x92722c85 ∷ 0xa2bfe8a1 ∷ 0xa81a664b
    ∷ 0xc24b8b70 ∷ 0xc76c51a3 ∷ 0xd192e819 ∷ 0xd6990624 ∷ 0xf40e3585 ∷ 0x106aa070 ∷ 0x19a4c116
    ∷ 0x1e376c08 ∷ 0x2748774c ∷ 0x34b0bcb5 ∷ 0x391c0cb3 ∷ 0x4ed8aa4a ∷ 0x5b9cca4f ∷ 0x682e6ff3
    ∷ 0x748f82ee ∷ 0x78a5636f ∷ 0x84c87814 ∷ 0x8cc70208 ∷ 0x90befffa ∷ 0xa4506ceb ∷ 0xbef9a3f7
    ∷ 0xc67178f2 ∷ []

pub record Hash : Type 0 where
  a : ℕ
  b : ℕ
  c : ℕ
  d : ℕ
  e : ℕ
  f : ℕ
  g : ℕ
  h : ℕ

abbrev initial : Hash
initial = record {
  a = 0x6a09e667;
  b = 0xbb67ae85;
  c = 0x3c6ef372;
  d = 0xa54ff53a;
  e = 0x510e527f;
  f = 0x9b05688c;
  g = 0x1f83d9ab;
  h = 0x5be0cd19;
}

zeros : ℕ → List ℕ
zeros zero = []
zeros (suc n) = 0 ∷ zeros n

-- `setUint32` of one word, high byte first
abbrev bytes_of : ℕ → List ℕ
bytes_of w = (w / 2 ^ 24 % 256) ∷ (w / 2 ^ 16 % 256) ∷ (w / 2 ^ 8 % 256) ∷ (w % 256) ∷ []

abbrev padded_length : ℕ → ℕ
padded_length n = (n + 9 + 63) / 64 * 64

-- The message, a byte 0x80, zeros, and the length in bits as two words.
unfoldable pub padded : List ℕ → List ℕ
unfolding zeros
padded bytes =
    let n = length bytes in
    bytes
    ++ (0x80 ∷ (zeros (padded_length n - n - 9) ++ (bytes_of (n * 8 / 2 ^ 32) ++ bytes_of (n * 8))))

-- The word `back` places before the next one, of words kept last first.
word_back : ℕ → List ℕ → ℕ
word_back back ws = elim (get_elem? ws (back - 1)) [ none ↦ 0 | some w ↦ w ]

next_word : List ℕ → ℕ
unfolding word_back xor3 rotr shr
next_word ws =
    let x = word_back 15 ws in
    let y = word_back 2 ws in
    let s0 = xor3 (rotr x 7) (rotr x 18) (shr x 3) in
    let s1 = xor3 (rotr y 17) (rotr y 19) (shr y 10) in
    word (word_back 16 ws + s0 + word_back 7 ws + s1)

-- The words 16 to 63 of the schedule, kept last first.
extend : ℕ → List ℕ → List ℕ
unfolding next_word
extend zero ws = ws
extend (suc n) ws = extend n (next_word ws ∷ ws)

-- One round, with its constant and its word of the schedule.
round : Hash → ℕ × ℕ → Hash
unfolding xor3 rotr shr
round s (k, w) =
    let s1 = xor3 (rotr s.e 6) (rotr s.e 11) (rotr s.e 25) in
    let ch = bit_xor (bit_and s.e s.f) (bit_and (2 ^ 32 - 1 - s.e) s.g) in
    let temp1 = word (s.h + s1 + ch + k + w) in
    let s0 = xor3 (rotr s.a 2) (rotr s.a 13) (rotr s.a 22) in
    let maj = xor3 (bit_and s.a s.b) (bit_and s.a s.c) (bit_and s.b s.c) in
    let temp2 = word (s0 + maj) in
    record {
      a = word (temp1 + temp2);
      b = s.a;
      c = s.b;
      d = s.c;
      e = word (s.d + temp1);
      f = s.e;
      g = s.f;
      h = s.g;
    }

add_hash : Hash → Hash → Hash
add_hash s t = record {
  a = word (s.a + t.a);
  b = word (s.b + t.b);
  c = word (s.c + t.c);
  d = word (s.d + t.d);
  e = word (s.e + t.e);
  f = word (s.f + t.f);
  g = word (s.g + t.g);
  h = word (s.h + t.h);
}

reverse_onto : List ℕ → List ℕ → List ℕ
reverse_onto [] acc = acc
reverse_onto (x ∷ xs) acc = reverse_onto xs (x ∷ acc)

rounds : Hash → List (ℕ × ℕ) → Hash
unfolding round
rounds s [] = s
rounds s (kw ∷ rest) = rounds (round s kw) rest

pairs : List ℕ → List ℕ → List (ℕ × ℕ)
pairs (k ∷ ks) (w ∷ ws) = (k, w) ∷ pairs ks ws
pairs _ _ = []

-- One block, given by its sixteen words, last first.
compress : Hash → List ℕ → Hash
unfolding rounds pairs reverse_onto extend add_hash
compress s block = add_hash s (rounds s (pairs constants (reverse_onto (extend 48 block) [])))

-- The loop over the bytes: `left` words are still wanted for the block in `block`.
blocks : Hash → ℕ → List ℕ → List ℕ → Hash
unfolding compress
blocks s left block (p ∷ q ∷ r ∷ t ∷ rest) =
    let w = p * 2 ^ 24 + q * 2 ^ 16 + r * 2 ^ 8 + t in
    elim left [
      | zero ↦ blocks (compress s (w ∷ block)) 15 [] rest
      | suc n ↦ blocks s n (w ∷ block) rest
    ]
blocks s left block _ = s

-- `toString(16)`: the digits are found last first; `suc n` rounds are enough for `n`.
hex_from : ℕ → ℕ → Str → Str
hex_from zero n acc = acc
hex_from (suc f) n acc =
    let digits = hex_digit (n % 16) ∷ acc in
    let rest = hex_from f (n / 16) digits in if ltb n 16 then digits else rest

fill : ℕ → Str
fill zero = []
fill (suc n) = b'0' ∷ fill n

-- `s.padStart(width, "0")`
pad_start : ℕ → Str → Str
unfolding fill
pad_start width s = fill (width - length s) ++ s

-- `word.toString(16).padStart(8, "0")`
hex : ℕ → Str
unfolding pad_start hex_from
hex w = pad_start 8 (hex_from (suc w) w [])

-- `words.map(…).join("")`
hex_words : List ℕ → Str
unfolding hex
hex_words [] = []
hex_words (w ∷ ws) = hex w ++ hex_words ws

hash_hex : Hash → Str
unfolding hex_words
hash_hex s = hex_words (s.a ∷ s.b ∷ s.c ∷ s.d ∷ s.e ∷ s.f ∷ s.g ∷ s.h ∷ [])

unfoldable pub sha256_hex_bytes : List ℕ → Str
unfolding padded blocks hash_hex
sha256_hex_bytes bytes = hash_hex (blocks initial 15 [] (padded bytes))

-- The UTF-8 bytes of a code point; `TextEncoder` writes a lone surrogate as U+FFFD.
utf8_point : ℕ → List ℕ
utf8_point c =
    if ltb c 0x80
    then c ∷ []
    else if ltb c 0x800
    then (0xC0 + c / 64) ∷ (0x80 + c % 64) ∷ []
    else if is_high c
    then 0xEF ∷ 0xBF ∷ 0xBD ∷ []
    else if is_low c
    then 0xEF ∷ 0xBF ∷ 0xBD ∷ []
    else if ltb c 0x10000
    then (0xE0 + c / 4096) ∷ (0x80 + c / 64 % 64) ∷ (0x80 + c % 64) ∷ []
    else (0xF0 + c / 2 ^ 18) ∷ (0x80 + c / 4096 % 64) ∷ (0x80 + c / 64 % 64) ∷ (0x80 + c % 64) ∷ []

utf8_points : List ℕ → List ℕ
unfolding utf8_point
utf8_points [] = []
utf8_points (c ∷ cs) = utf8_point c ++ utf8_points cs

-- `encoder.encode(text)`
unfoldable pub utf8 : Str → List ℕ
unfolding utf8_points
utf8 text = utf8_points (code_points text)

unfoldable pub sha256_hex : Str → Str
sha256_hex text = sha256_hex_bytes (utf8 text)
