-- ===== src/Sql/Clauses.antt =====
-- The clauses of a query: WHERE, IN, ORDER BY, LIMIT and OFFSET (packages/store/src/sql.ts).
use mirk.Common.{
  zero, suc, Bool, true, false, ◌||◌, not, Option, none, some, List, [], ◌∷◌, ◌++◌, if◌then◌else◌,
}
use mirk.Common.Result.{Result, ok, ◌>>=◌, ◌>>◌}
use mirk.Text.{Str, ascii, is_empty}
use mirk.Decimal.{decimal}
use mirk.Js.{Number, Js, null, bool, num, str, entries}
use mirk.Filter.{
  FilterError, RangeOperator, gt, gte, lt, lte, Bound, number, text, WhereCondition, equals, range,
  StoreFilter, Amount, floor_of, below_one, below_zero, infinite, not_a_number, where_condition,
  assert_in_values,
}
use mirk.Sql.Paths.{json_path_literal}

-- A parameter that is bound; a `bigint` is a number here.
pub data SqlParam (N : Type 0) : Type 0 where
  text_param : Str → SqlParam N
  number_param : N → SqlParam N

-- `texts.join(separator)`
unfoldable pub join : Str → List Str → Str
join separator [] = []
join separator (t ∷ []) = t
join separator (t ∷ u ∷ ts) = t ++ (separator ++ join separator (u ∷ ts))

abbrev pub extract : Str → Str
extract path = ascii "json_extract(data, " ++ (path ++ ascii ")")

abbrev pub json_type : Str → Str
json_type path = ascii "json_type(data, " ++ (path ++ ascii ")")

-- `RANGE_SQL`
abbrev pub range_sql : RangeOperator → Str
range_sql gt = ascii ">"
range_sql gte = ascii ">="
range_sql lt = ascii "<"
range_sql lte = ascii "<="

-- `kinds.add(kind)`
unfoldable pub add_kind : Option Bool → List (Option Bool) → List (Option Bool)
add_kind k [] = k ∷ []
add_kind none (none ∷ ks) = none ∷ ks
add_kind (some true) (some true ∷ ks) = some true ∷ ks
add_kind (some false) (some false ∷ ks) = some false ∷ ks
add_kind k (j ∷ ks) = j ∷ add_kind k ks

module _ {N : Type 0} where
  abbrev pub bound_param : Bound N → SqlParam N
  bound_param (number n) = number_param n
  bound_param (text s) = text_param s

  abbrev pub is_number_bound : RangeOperator × Bound N → Bool
  is_number_bound (o, number n) = true
  is_number_bound (o, text s) = false

  unfoldable pub any_bound : Bool → List (RangeOperator × Bound N) → Bool
  any_bound numeric [] = false
  any_bound true (b ∷ bs) = is_number_bound b || any_bound true bs
  any_bound false (b ∷ bs) = not (is_number_bound b) || any_bound false bs

  -- The comparisons of a range, each with its parameter.
  unfoldable pub range_terms : Str → List (RangeOperator × Bound N) → List Str
  range_terms path [] = []
  range_terms path ((o, b) ∷ bs) =
      (ascii "unlikely(" ++ (extract path ++ (b' ' ∷ (range_sql o ++ ascii " ?)"))))
      ∷ range_terms path bs

  unfoldable pub range_params : List (RangeOperator × Bound N) → List (SqlParam N)
  range_params [] = []
  range_params ((o, b) ∷ bs) = bound_param b ∷ range_params bs

  -- The guard of a range by the kinds of its bounds.
  unfoldable pub range_guard : Str → List (RangeOperator × Bound N) → Str
  unfolding any_bound
  range_guard path bounds =
      if any_bound true bounds
      then (if any_bound false bounds
          then ascii "0"
          else json_type path ++ ascii " IN ('integer', 'real')")
      else json_type path ++ ascii " = 'text'"

  -- One `where` entry, classified: the conditions and the parameters that it pushes. No other
  -- value than a scalar is classified as equal.
  unfoldable pub condition_terms : Str → WhereCondition N → List Str × List (SqlParam N)
  unfolding range_terms range_params range_guard
  condition_terms path (range bounds) =
      (range_terms path bounds ++ range_guard path bounds ∷ [], range_params bounds)
  condition_terms path (equals null) =
      ((extract path ++ (ascii " IS NULL AND " ++ (json_type path ++ ascii " = 'null'"))) ∷ [], [])
  condition_terms path (equals (bool true)) =
      ((extract path ++ (ascii " = 1 AND " ++ (json_type path ++ ascii " = 'true'"))) ∷ [], [])
  condition_terms path (equals (bool false)) =
      ((extract path ++ (ascii " = 0 AND " ++ (json_type path ++ ascii " = 'false'"))) ∷ [], [])
  condition_terms path (equals (str s)) = (
    (extract path ++ (ascii " = ? AND " ++ (json_type path ++ ascii " = 'text'"))) ∷ [],
    text_param s ∷ [],
  )
  condition_terms path (equals (num n)) = (
    (extract path ++ (ascii " = ? AND " ++ (json_type path ++ ascii " IN ('integer', 'real')")))
        ∷ [],
    number_param n ∷ [],
  )
  condition_terms path (equals _) = ([], [])

  -- The strings and numbers among the values of IN.
  unfoldable pub in_scalars : List (Js N) → List (SqlParam N)
  in_scalars [] = []
  in_scalars (str s ∷ vs) = text_param s ∷ in_scalars vs
  in_scalars (num n ∷ vs) = number_param n ∷ in_scalars vs
  in_scalars (v ∷ vs) = in_scalars vs

  -- The booleans and null among the values, in the order in which they first occur.
  unfoldable pub in_kinds : List (Js N) → List (Option Bool) → List (Option Bool)
  unfolding add_kind
  in_kinds [] kinds = kinds
  in_kinds (null ∷ vs) kinds = in_kinds vs (add_kind none kinds)
  in_kinds (bool b ∷ vs) kinds = in_kinds vs (add_kind (some b) kinds)
  in_kinds (v ∷ vs) kinds = in_kinds vs kinds

abbrev pub kind_match : Option Bool → Str
kind_match none = ascii "IS NULL"
kind_match (some true) = ascii "= 1"
kind_match (some false) = ascii "= 0"

abbrev pub kind_name : Option Bool → Str
kind_name none = ascii "null"
kind_name (some true) = ascii "true"
kind_name (some false) = ascii "false"

unfoldable pub kind_terms : Str → List (Option Bool) → List Str
kind_terms path [] = []
kind_terms path (k ∷ ks) =
    (ascii "("
      ++ (extract path
          ++ (b' '
              ∷ (kind_match k
                  ++ (ascii " AND "
                      ++ (json_type path ++ (ascii " = '" ++ (kind_name k ++ ascii "')"))))))))
    ∷ kind_terms path ks

-- `scalars.map(() => "?")`
unfoldable pub marks : {A : Type 0} → List A → List Str
marks [] = []
marks (a ∷ rest) = ascii "?" ∷ marks rest

unfoldable pub scalar_terms : {A : Type 0} → Str → List A → List Str
unfolding join marks
scalar_terms path [] = []
scalar_terms path (a ∷ rest) =
    (ascii "("
      ++ (extract path
          ++ (ascii " IN ("
              ++ (join (ascii ", ") (marks (a ∷ rest))
                  ++ (ascii ") AND "
                      ++ (json_type path ++ ascii " IN ('integer', 'real', 'text'))"))))))
    ∷ []

-- `terms.length === 1 ? terms[0] : …`
unfoldable pub any_of : List Str → Str
unfolding join
any_of (t ∷ []) = t
any_of terms = ascii "(" ++ (join (ascii " OR ") terms ++ ascii ")")

module _ {N : Type 0} ⦃numbers : Number N⦄ where
  -- The loop over the `where` entries.
  unfoldable pub where_terms : List (Str × Js N) → Result FilterError (List Str × List (SqlParam N))
  unfolding json_path_literal condition_terms
  where_terms [] = ok ([], [])
  where_terms ((k, v) ∷ es) = do
    condition ← where_condition v
    let first = condition_terms (json_path_literal k) condition
    rest ← where_terms es
    ok (first.0 ++ rest.0, first.1 ++ rest.1)

  -- `buildWhereClause`, on the entries of `where`.
  unfoldable pub where_clause : List (Str × Js N) → Result FilterError (Str × List (SqlParam N))
  unfolding where_terms join
  where_clause [] = ok ([], [])
  where_clause (e ∷ es) = do
    found ← where_terms (e ∷ es)
    ok (ascii " WHERE " ++ join (ascii " AND ") found.0, found.1)

  -- `buildWhereClause(filter)`
  unfoldable pub build_where_clause :
      Option (StoreFilter N) → Result FilterError (Str × List (SqlParam N))
  unfolding where_clause
  build_where_clause none = ok ([], [])
  build_where_clause (some f) = elim f.conditions [
    | none ↦ ok ([], [])
    | some fs ↦ where_clause (entries fs)
  ]

  -- `buildInClause(field, values, hasPriorWhere)`
  unfoldable pub build_in_clause :
      Str → List (Js N) → Bool → Result FilterError (Str × List (SqlParam N))
  unfolding json_path_literal in_scalars in_kinds scalar_terms kind_terms any_of
  build_in_clause k values has_prior_where = do
    assert_in_values values
    let path = json_path_literal k
    let scalars = in_scalars values
    let terms = scalar_terms path scalars ++ kind_terms path (in_kinds values [])
    ok (
      (if has_prior_where then ascii " AND" else ascii " WHERE") ++ (b' ' ∷ any_of terms),
      scalars,
    )

abbrev pub ordered : Str → Bool → Str
ordered k descending =
    if is_empty k
    then ascii " ORDER BY rowid"
    else ascii " ORDER BY json_extract(data, "
      ++ (json_path_literal k
          ++ (ascii ") "
              ++ ((if descending then ascii "DESC" else ascii "ASC")
                  ++ ascii " NULLS LAST, rowid")))

abbrev pub order_text : Option Str → Bool → Str
order_text none descending = ascii " ORDER BY rowid"
order_text (some k) descending = ordered k descending

-- `buildOrderBy(filter).clause`; an empty field name is no sort.
unfoldable pub build_order_by : {N : Type 0} → Option (StoreFilter N) → Str
unfolding json_path_literal
build_order_by none = ascii " ORDER BY rowid"
build_order_by (some f) = order_text f.sort_by f.descending

-- `${Math.max(0, Math.floor(amount))}`, for a floor below 10 ^ 21, from where on the text has an exponent.
abbrev pub amount_text : Amount → Str
amount_text (floor_of n) = decimal n
amount_text below_one = ascii "0"
amount_text below_zero = ascii "0"
amount_text infinite = ascii "Infinity"
amount_text not_a_number = ascii "NaN"

abbrev pub limit_text : Option Amount → Str
limit_text none = []
limit_text (some a) = ascii " LIMIT " ++ amount_text a

abbrev pub is_positive : Amount → Bool
is_positive (floor_of zero) = false
is_positive (floor_of (suc n)) = true
is_positive below_one = true
is_positive below_zero = false
is_positive infinite = true
is_positive not_a_number = false

abbrev pub unlimited : Option Amount → Str
unlimited none = ascii " LIMIT -1"
unlimited (some a) = []

abbrev pub offset_text : Option Amount → Option Amount → Str
offset_text limit none = []
offset_text limit (some a) =
    if is_positive a then unlimited limit ++ (ascii " OFFSET " ++ amount_text a) else []

-- `buildLimitOffset(filter)`
unfoldable pub build_limit_offset : {N : Type 0} → Option (StoreFilter N) → Str
build_limit_offset none = []
build_limit_offset (some f) = limit_text f.limit ++ offset_text f.limit f.offset
