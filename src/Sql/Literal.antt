-- ===== src/Sql/Literal.antt =====
-- SQL reads a path literal back as the path (packages/store/src/sql.ts).
use mirk.Common.{
  ℕ, ◌≡◌, refl, ap, ◌∙◌, Bool, true, false, Option, none, some, [], ◌∷◌, ◌++◌, ◌==◌, arith,
  if◌then◌else◌, Bool-cases, inl, inr,
}
use mathlib.Core.List.{append_assoc}
use mirk.Text.{Str}
use mirk.Sql.Paths.{double_quotes, sql_literal, json_path, json_path_literal}

abbrev push : ℕ → Option (Str × Str) → Option (Str × Str)
push u none = none
push u (some (text, rest)) = some (u ∷ text, rest)

-- The rest of a string literal of SQL: a doubled quote is a quote, a single one ends it.
unfoldable pub read_body : Str → Option (Str × Str)
read_body [] = none
read_body (u ∷ []) = if u == b'\'' then some ([], []) else none
read_body (u ∷ v ∷ s) =
    let doubled = push u (read_body s) in
    let other = push u (read_body (v ∷ s)) in
    if u == b'\'' then (if v == b'\'' then doubled else some ([], v ∷ s)) else other

-- The value of the literal that the text starts with, and what follows it.
unfoldable pub read_literal : Str → Option (Str × Str)
unfolding read_body
read_literal [] = none
read_literal (u ∷ s) = if u == b'\'' then read_body s else none

-- The text does not go on with a quote.
abbrev pub ends_literal : Str → Bool
ends_literal [] = true
ends_literal (u ∷ s) = if u == b'\'' then false else true

read_body-other :
    (u : ℕ) (s : Str) → (u == b'\'') ≡ false → read_body (u ∷ s) ≡ push u (read_body s)
unfolding read_body
read_body-other u [] e = ground arith
read_body-other u (v ∷ s) e = ground arith

read_body-double_quotes :
    (t rest : Str)
    → ends_literal rest ≡ true
    → read_body (double_quotes t ++ b'\'' ∷ rest) ≡ some (t, rest)
unfolding read_body double_quotes
read_body-double_quotes [] [] h = refl
read_body-double_quotes [] (v ∷ rest) h = ground arith
read_body-double_quotes (u ∷ t) rest h = elim (Bool-cases (u == b'\'')) [
  | inl e ↦ rw e (ap (push b'\'') (read_body-double_quotes t rest h) ∙ ground arith)
  | inr e ↦ rw e (
      read_body-other u (double_quotes t ++ b'\'' ∷ rest) e
      ∙ ap (push u) (read_body-double_quotes t rest h))
]

-- Before a text that does not start with a quote, SQL reads the literal of a JSON path back as
-- the path, and goes on with that text.
pub read_literal-json_path_literal :
    (k rest : Str)
    → ends_literal rest ≡ true
    → read_literal (json_path_literal k ++ rest) ≡ some (json_path k, rest)
unfolding read_literal json_path_literal sql_literal
read_literal-json_path_literal k rest h =
    ap read_body (append_assoc (double_quotes (json_path k)) (b'\'' ∷ []) rest)
    ∙ read_body-double_quotes (json_path k) rest h
