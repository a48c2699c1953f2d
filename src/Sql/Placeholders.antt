-- ===== src/Sql/Placeholders.antt =====
-- A clause has as many placeholders as parameters, whatever the names of the fields
-- (packages/store/src/sql.ts).
use mirk.Common.{
  ℕ, ◌+◌, ◌≡◌, refl, ◌∙◌, subst, Bool, true, false, Option, none, some, List, [], ◌∷◌, ◌++◌, length,
  arith, if◌then◌else◌,
}
use mirk.Text.{Str, ascii}
use mirk.Js.{null, bool, num, str}
use mirk.Filter.{RangeOperator, gt, gte, lt, lte, Bound, WhereCondition, equals, range}
use mirk.Sql.Paths.{json_path_literal, json_path}
use mirk.Sql.Clauses.{
  extract, json_type, range_sql, range_terms, range_params, range_guard, any_bound, condition_terms,
  kind_match, kind_name, kind_terms, marks, scalar_terms, any_of,
}
use mirk.Sql.Closed.{
  placeholders_from, ends_inside, Closed, Closed-append, written, plain, sql_literal-Closed,
  AllClosed, AllClosed-append, join-Closed, alone,
}

extract-Closed : {path : Str} → Closed 0 path → Closed 0 (extract path)
unfolding placeholders_from ends_inside
extract-Closed c =
    plain (written (ascii "json_extract(data, ") refl refl)
      (plain c (written (ascii ")") refl refl))

json_type-Closed : {path : Str} → Closed 0 path → Closed 0 (json_type path)
unfolding placeholders_from ends_inside
json_type-Closed c =
    plain (written (ascii "json_type(data, ") refl refl) (plain c (written (ascii ")") refl refl))

range_sql-Closed : (o : RangeOperator) → Closed 0 (range_sql o)
unfolding placeholders_from ends_inside
range_sql-Closed gt = record { count = refl; shut = refl }
range_sql-Closed gte = record { count = refl; shut = refl }
range_sql-Closed lt = record { count = refl; shut = refl }
range_sql-Closed lte = record { count = refl; shut = refl }

pub pick : {s t : Str} (b : Bool) → Closed 0 s → Closed 0 t → Closed 0 (if b then s else t)
pick true a b = a
pick false a b = b

module _ {N : Type 0} where
  range_terms-Closed :
      (path : Str) (bounds : List (RangeOperator × Bound N))
      → Closed 0 path
      → AllClosed (length (range_params bounds)) (range_terms path bounds)
  unfolding range_terms range_params AllClosed placeholders_from ends_inside
  range_terms-Closed path [] c = refl
  range_terms-Closed path ((o, b) ∷ bs) c = (
    1,
    length (range_params bs),
    plain (written (ascii "unlikely(") refl refl) (
        plain (extract-Closed c) (
          plain (written (ascii " ") refl refl)
            (plain (range_sql-Closed o) (written (ascii " ?)") refl refl)))),
    range_terms-Closed path bs c,
    omega arith,
  )

  range_guard-Closed :
      (path : Str) (bounds : List (RangeOperator × Bound N))
      → Closed 0 path
      → Closed 0 (range_guard path bounds)
  unfolding range_guard placeholders_from ends_inside
  range_guard-Closed path bounds c =
      pick (any_bound true bounds)
        (pick (any_bound false bounds) (written (ascii "0") refl refl)
          (plain (json_type-Closed c) (written (ascii " IN ('integer', 'real')") refl refl)))
        (plain (json_type-Closed c) (written (ascii " = 'text'") refl refl))

  pub condition_terms-Closed :
      (path : Str) (condition : WhereCondition N)
      → Closed 0 path
      → AllClosed (length (condition_terms path condition).1) (condition_terms path condition).0
  unfolding condition_terms AllClosed placeholders_from ends_inside
  condition_terms-Closed path (range bounds) c =
      let e : length (range_params bounds) + 0 ≡ length (range_params bounds) = omega arith in
      subst (λ n. AllClosed n (range_terms path bounds ++ range_guard path bounds ∷ [])) e
        (AllClosed-append (length (range_params bounds)) 0 (range_terms path bounds)
          (range_guard path bounds ∷ []) (range_terms-Closed path bounds c)
          (alone (range_guard-Closed path bounds c)))
  condition_terms-Closed path (equals null) c = alone (
      plain (extract-Closed c) (
        plain (written (ascii " IS NULL AND ") refl refl)
          (plain (json_type-Closed c) (written (ascii " = 'null'") refl refl))))
  condition_terms-Closed path (equals (bool true)) c = alone (
      plain (extract-Closed c) (
        plain (written (ascii " = 1 AND ") refl refl)
          (plain (json_type-Closed c) (written (ascii " = 'true'") refl refl))))
  condition_terms-Closed path (equals (bool false)) c = alone (
      plain (extract-Closed c) (
        plain (written (ascii " = 0 AND ") refl refl)
          (plain (json_type-Closed c) (written (ascii " = 'false'") refl refl))))
  condition_terms-Closed path (equals (str s)) c = alone (
      plain (extract-Closed c) (
        Closed-append {m = 1} (written (ascii " = ? AND ") refl refl)
          (plain (json_type-Closed c) (written (ascii " = 'text'") refl refl))))
  condition_terms-Closed path (equals (num n)) c = alone (
      plain (extract-Closed c) (
        Closed-append {m = 1} (written (ascii " = ? AND ") refl refl)
          (plain (json_type-Closed c) (written (ascii " IN ('integer', 'real')") refl refl))))
  condition_terms-Closed path (equals _) c = refl

pub json_path_literal-Closed : (k : Str) → Closed 0 (json_path_literal k)
unfolding json_path_literal
json_path_literal-Closed k = sql_literal-Closed (json_path k)

marks-Closed : {A : Type 0} (rest : List A) → AllClosed (length rest) (marks rest)
unfolding marks AllClosed placeholders_from ends_inside
marks-Closed [] = refl
marks-Closed (a ∷ rest) =
    (1, length rest, written (ascii "?") refl refl, marks-Closed rest, omega arith)

pub scalar_terms-Closed :
    {A : Type 0} (path : Str) (scalars : List A)
    → Closed 0 path
    → AllClosed (length scalars) (scalar_terms path scalars)
unfolding scalar_terms AllClosed placeholders_from ends_inside
scalar_terms-Closed path [] c = refl
scalar_terms-Closed path (a ∷ rest) c =
    let inside =
      join-Closed (ascii ", ") (length (a ∷ rest)) (marks (a ∷ rest))
        (written (ascii ", ") refl refl) (marks-Closed (a ∷ rest)) in
    let after =
      plain (written (ascii ") AND ") refl refl) (
        plain (json_type-Closed c)
          (written (ascii " IN ('integer', 'real', 'text'))") refl refl)) in
    let whole = plain (written (ascii "(") refl refl) (
      plain (extract-Closed c)
        (plain (written (ascii " IN (") refl refl) (Closed-append inside after))) in
    alone (record { count = whole.count ∙ omega arith; shut = whole.shut })

kind_match-Closed : (k : Option Bool) → Closed 0 (kind_match k)
unfolding placeholders_from ends_inside
kind_match-Closed none = written (ascii "IS NULL") refl refl
kind_match-Closed (some true) = written (ascii "= 1") refl refl
kind_match-Closed (some false) = written (ascii "= 0") refl refl

-- The quoted kind and the bracket that closes its term.
kind_quoted-Closed : (k : Option Bool) → Closed 0 (ascii " = '" ++ (kind_name k ++ ascii "')"))
unfolding placeholders_from ends_inside
kind_quoted-Closed none = written (ascii " = 'null')") refl refl
kind_quoted-Closed (some true) = written (ascii " = 'true')") refl refl
kind_quoted-Closed (some false) = written (ascii " = 'false')") refl refl

pub kind_terms-Closed :
    (path : Str) (kinds : List (Option Bool)) → Closed 0 path → AllClosed 0 (kind_terms path kinds)
unfolding kind_terms AllClosed placeholders_from ends_inside
kind_terms-Closed path [] c = refl
kind_terms-Closed path (k ∷ ks) c = (
  0,
  0,
  plain (written (ascii "(") refl refl) (
      plain (extract-Closed c) (
        plain (written (ascii " ") refl refl) (
          plain (kind_match-Closed k) (
            plain (written (ascii " AND ") refl refl)
              (plain (json_type-Closed c) (kind_quoted-Closed k)))))),
  kind_terms-Closed path ks c,
  omega arith,
)

pub any_of-Closed : (n : ℕ) (ts : List Str) → AllClosed n ts → Closed n (any_of ts)
unfolding any_of AllClosed placeholders_from ends_inside
any_of-Closed n [] h = record { count = ground arith; shut = refl }
any_of-Closed n (t ∷ []) (a, b, d, h, e) = record { count = ground (arith, d.count); shut = d.shut }
any_of-Closed n (t ∷ u ∷ ts) h =
    let c = plain (written (ascii "(") refl refl) (
      Closed-append (join-Closed (ascii " OR ") n (t ∷ u ∷ ts) (written (ascii " OR ") refl refl) h)
        (written (ascii ")") refl refl)) in
    record { count = c.count ∙ omega arith; shut = c.shut }
