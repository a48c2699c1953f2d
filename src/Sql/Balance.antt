-- ===== src/Sql/Balance.antt =====
-- The query of `listWhereIn` binds as many parameters as it has placeholders
-- (packages/store/src/sql.ts).
use mirk.Common.{
  ℕ, zero, suc, ◌+◌, ◌%◌, ◌/◌, ◌≡◌, ◌≢◌, refl, sym, ◌∙◌, subst, Bool, true, false, not, Option,
  none, some, List, [], ◌∷◌, ◌++◌, length, length-append, ltb, arith, All, All-map, Bool-cases,
  Option-cases, inl, inr,
}
use mirk.Common.Result.{ok, >>=-eq-ok, ok-injective}
use mirk.Text.{Str, ascii, is_empty}
use mirk.Decimal.{decimal, decimal_from}
use mirk.Js.{Number, Js, entries}
use mirk.Filter.{
  StoreFilter, Amount, floor_of, below_one, below_zero, infinite, not_a_number, where_condition,
  assert_in_values,
}
use mirk.Sql.Paths.{is_word, json_path_literal}
use mirk.Sql.Clauses.{
  SqlParam, condition_terms, where_terms, where_clause, build_where_clause, in_scalars, in_kinds,
  kind_terms, scalar_terms, build_in_clause, build_order_by, ordered, order_text,
  build_limit_offset, amount_text, limit_text, is_positive, unlimited, offset_text,
}
use mirk.Sql.Closed.{
  placeholders_from, ends_inside, placeholders, Closed, Closed-append, written, plain, AllClosed,
  AllClosed-append, join-Closed,
}
use mirk.Sql.Placeholders.{
  pick, json_path_literal-Closed, condition_terms-Closed, scalar_terms-Closed, kind_terms-Closed,
  any_of-Closed,
}
use mirk.Sql.Queries.{list_where_in_query}

-- No quote and no question mark.
abbrev IsPlain : ℕ → Type 0
IsPlain u = (u ≢ b'\'') × (u ≢ b'?')

IsPlain-Closed : (s : Str) → All IsPlain s → Closed 0 s
unfolding placeholders_from ends_inside
IsPlain-Closed [] h = record { count = refl; shut = refl }
IsPlain-Closed (u ∷ s) h =
    let c = IsPlain-Closed s h.1 in
    record { count = ground (arith, h.0, c.count); shut = ground (arith, h.0, c.shut) }

is_word-IsPlain : (u : ℕ) → is_word u ≡ true → IsPlain u
is_word-IsPlain u h = ground arith

decimal_from-IsPlain : (f n : ℕ) (acc : Str) → All IsPlain acc → All IsPlain (decimal_from f n acc)
unfolding decimal_from
decimal_from-IsPlain zero n acc h = h
decimal_from-IsPlain (suc f) n acc h = elim (Bool-cases (ltb n 10)) [
  | inl e ↦ rw e (ground arith, h)
  | inr e ↦ rw e (decimal_from-IsPlain f (n / 10) ((48 + n % 10) ∷ acc) (ground arith, h))
]

amount_text-Closed : (a : Amount) → Closed 0 (amount_text a)
unfolding decimal placeholders_from ends_inside
amount_text-Closed (floor_of n) = IsPlain-Closed (decimal n) (decimal_from-IsPlain (suc n) n [] tt)
amount_text-Closed below_one = written (ascii "0") refl refl
amount_text-Closed below_zero = written (ascii "0") refl refl
amount_text-Closed infinite = written (ascii "Infinity") refl refl
amount_text-Closed not_a_number = written (ascii "NaN") refl refl

nothing-Closed : Closed 0 []
unfolding placeholders_from ends_inside
nothing-Closed = record { count = refl; shut = refl }

limit_text-Closed : (limit : Option Amount) → Closed 0 (limit_text limit)
unfolding placeholders_from ends_inside
limit_text-Closed none = nothing-Closed
limit_text-Closed (some a) = plain (written (ascii " LIMIT ") refl refl) (amount_text-Closed a)

unlimited-Closed : (limit : Option Amount) → Closed 0 (unlimited limit)
unfolding placeholders_from ends_inside
unlimited-Closed none = written (ascii " LIMIT -1") refl refl
unlimited-Closed (some a) = nothing-Closed

offset_text-Closed : (limit offset : Option Amount) → Closed 0 (offset_text limit offset)
unfolding placeholders_from ends_inside
offset_text-Closed limit none = nothing-Closed
offset_text-Closed limit (some a) =
    pick (is_positive a)
      (plain (unlimited-Closed limit)
        (plain (written (ascii " OFFSET ") refl refl) (amount_text-Closed a)))
      nothing-Closed

order_text-Closed : (k : Str) (d : Bool) → Closed 0 (ordered k d)
unfolding placeholders_from ends_inside
order_text-Closed k d = pick (is_empty k) (written (ascii " ORDER BY rowid") refl refl) (
    plain (written (ascii " ORDER BY json_extract(data, ") refl refl) (
      plain (json_path_literal-Closed k) (
        plain (written (ascii ") ") refl refl) (
          plain (pick d (written (ascii "DESC") refl refl) (written (ascii "ASC") refl refl))
            (written (ascii " NULLS LAST, rowid") refl refl)))))

module _ {N : Type 0} where
  build_limit_offset-Closed : (f : Option (StoreFilter N)) → Closed 0 (build_limit_offset f)
  unfolding build_limit_offset
  build_limit_offset-Closed none = nothing-Closed
  build_limit_offset-Closed (some f) =
      plain (limit_text-Closed f.limit) (offset_text-Closed f.limit f.offset)

  build_order_by-Closed : (f : Option (StoreFilter N)) → Closed 0 (build_order_by f)
  unfolding build_order_by placeholders_from ends_inside
  build_order_by-Closed none = written (ascii " ORDER BY rowid") refl refl
  build_order_by-Closed (some f) = by_cases f.sort_by
    where
      by_cases : (by : Option Str) → Closed 0 (order_text by f.descending)
      by_cases none = written (ascii " ORDER BY rowid") refl refl
      by_cases (some k) = order_text-Closed k f.descending

module _ {N : Type 0} ⦃numbers : Number N⦄ where
  where_terms-Closed :
      (es : List (Str × Js N)) (found : List Str × List (SqlParam N))
      → where_terms es ≡ ok found
      → AllClosed (length found.1) found.0
  unfolding where_terms AllClosed
  where_terms-Closed [] found h = subst (λ q. AllClosed (length q.1) q.0) (ok-injective h) refl
  where_terms-Closed ((k, v) ∷ es) found h =
      let (c, p, r) = >>=-eq-ok (where_condition v) _ h in
      let (rest, q, t) = >>=-eq-ok (where_terms es) _ r in
      let first = condition_terms (json_path_literal k) c in
      let whole =
        AllClosed-append (length first.1) (length rest.1) first.0 rest.0
          (condition_terms-Closed (json_path_literal k) c (json_path_literal-Closed k))
          (where_terms-Closed es rest q) in
      subst (λ q. AllClosed (length q.1) q.0) (ok-injective t)
        (subst (λ n. AllClosed n (first.0 ++ rest.0)) (sym (length-append first.1 rest.1)) whole)

  abbrev Balanced : Str × List (SqlParam N) → Type 0
  Balanced q = Closed (length q.1) q.0

  where_clause-Balanced :
      (es : List (Str × Js N)) (found : Str × List (SqlParam N))
      → where_clause es ≡ ok found
      → Balanced found
  unfolding where_clause placeholders_from ends_inside
  where_clause-Balanced [] found h = subst Balanced (ok-injective h) nothing-Closed
  where_clause-Balanced (e ∷ es) found h =
      let (terms, p, r) = >>=-eq-ok (where_terms (e ∷ es)) _ h in
      subst Balanced (ok-injective r) (
        plain (written (ascii " WHERE ") refl refl) (
          join-Closed (ascii " AND ") (length terms.1) terms.0 (written (ascii " AND ") refl refl)
            (where_terms-Closed (e ∷ es) terms p)))

  build_where_clause-Balanced :
      (f : Option (StoreFilter N)) (found : Str × List (SqlParam N))
      → build_where_clause f ≡ ok found
      → Balanced found
  unfolding build_where_clause
  build_where_clause-Balanced none found h = subst Balanced (ok-injective h) nothing-Closed
  build_where_clause-Balanced (some f) found h = elim (Option-cases f.conditions) [
    | inl e ↦ let g = rw e at h in subst Balanced (ok-injective g) nothing-Closed
    | inr (fs, e) ↦ where_clause-Balanced (entries fs) found (rw e at h)
  ]

  build_in_clause-Balanced :
      (k : Str) (values : List (Js N)) (prior : Bool) (found : Str × List (SqlParam N))
      → build_in_clause k values prior ≡ ok found
      → Balanced found
  unfolding build_in_clause placeholders_from ends_inside
  build_in_clause-Balanced k values prior found h =
      let (u, p, r) = >>=-eq-ok (assert_in_values values) _ h in
      let path = json_path_literal k in
      let scalars = in_scalars values in
      let terms = scalar_terms path scalars ++ kind_terms path (in_kinds values []) in
      let closed =
        AllClosed-append (length scalars) 0 (scalar_terms path scalars)
          (kind_terms path (in_kinds values []))
          (scalar_terms-Closed path scalars (json_path_literal-Closed k))
          (kind_terms-Closed path (in_kinds values []) (json_path_literal-Closed k)) in
      let e : length scalars + 0 ≡ length scalars = omega arith in
      let body = any_of-Closed (length scalars) terms (subst (λ n. AllClosed n terms) e closed) in
      subst Balanced (ok-injective r) (
        plain (pick prior (written (ascii " AND") refl refl) (written (ascii " WHERE") refl refl))
          (plain (written (ascii " ") refl refl) body))

  -- The query text of listWhereIn, on a table whose name has word characters only, closes all its
  -- literals and has as many placeholders outside them as parameters are bound, whatever the
  -- field names, values and filter are.
  pub list_where_in_query-balanced :
      (table k : Str) (values : List (Js N)) (f : Option (StoreFilter N))
      (query : Str × List (SqlParam N))
      → All (λ u. is_word u ≡ true) table
      → list_where_in_query table k values f ≡ ok query
      → (placeholders query.0 ≡ length query.1) × (ends_inside false query.0 ≡ false)
  unfolding list_where_in_query placeholders_from ends_inside
  list_where_in_query-balanced table k values f query words h =
      let (found, p, r) = >>=-eq-ok (build_where_clause f) _ h in
      let (inside, q, t) = >>=-eq-ok (build_in_clause k values (not (is_empty found.0))) _ r in
      let rest = plain (build_order_by-Closed f) (build_limit_offset-Closed f) in
      let body = Closed-append (build_where_clause-Balanced f found p) (
        Closed-append (build_in_clause-Balanced k values (not (is_empty found.0)) inside q) rest) in
      let whole =
        plain (written (ascii "SELECT data FROM ") refl refl)
          (plain (IsPlain-Closed table (All-map is_word-IsPlain table words)) body) in
      subst (λ q. (placeholders q.0 ≡ length q.1) × (ends_inside false q.0 ≡ false))
        (ok-injective t) (whole.count ∙ omega (arith, length-append found.1 inside.1), whole.shut)
