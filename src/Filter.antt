-- ===== src/Filter.antt =====
-- Filters of collections: `whereCondition`, `assertWhere`, `inRange` and `assertInValues`
-- (packages/store/src/sql.ts), and `sortAndPageStoreItems` (packages/store/src/order.ts).
pub mod Order
use mirk.Common.{
  ℕ, zero, suc, Bool, true, false, ◌&&◌, not, Option, none, some, List, [], ◌∷◌, Ordering, ltb,
  length, take, drop, if◌then◌else◌,
}
use mirk.Common.Result.{Result, ok, err, ◌>>=◌, ◌>>◌, require}
use mirk.Text.{Str, ascii, is_empty, str_eq, compare_code_points}
use mirk.Text.Units.{flip}
use mirk.Sort.{sort}
use mirk.Js.{Number, Js, undefined, null, bool, num, str, obj, instance_of, Fields, at, entries}

pub data FilterError : Type 0 where
  non_scalar_filter non_scalar_in_value invalid_range_bound non_finite_number too_many_in_values :
      FilterError

pub data RangeOperator : Type 0 where
  gt gte lt lte : RangeOperator

pub data Bound (N : Type 0) : Type 0 where
  number : N → Bound N
  text : Str → Bound N

-- One `where` entry, classified; the value of `equals` is a scalar.
pub data WhereCondition (N : Type 0) : Type 0 where
  equals : Js N → WhereCondition N
  range : List (RangeOperator × Bound N) → WhereCondition N

-- A number as `Math.floor` sees it: zero or one from 1 on with its floor, or one between 0 and 1, or one
-- below zero.
pub data Amount : Type 0 where
  floor_of : ℕ → Amount
  below_one below_zero infinite not_a_number : Amount

-- `StoreFilter`; `sortDir === "desc"` is `descending`.
pub record StoreFilter (N : Type 0) : Type 0 where
  pub conditions : Option (Fields N)
  pub sort_by : Option Str
  pub descending : Bool
  pub limit : Option Amount
  pub offset : Option Amount

abbrev pub max_in_values : ℕ
max_in_values = 10000

-- `STORE_RANGE_OPERATORS`
abbrev pub range_operator : Str → Option RangeOperator
range_operator k =
    if str_eq k (ascii "gt")
    then some gt
    else if str_eq k (ascii "gte")
    then some gte
    else if str_eq k (ascii "lt")
    then some lt
    else if str_eq k (ascii "lte")
    then some lte
    else none

-- `entries.every(…)`, with the operators that the keys name.
unfoldable pub range_keys : {A : Type 0} → List (Str × A) → Option (List (RangeOperator × A))
range_keys [] = some []
range_keys ((k, v) ∷ es) =
    let rest = range_keys es in
    elim (range_operator k) [
      | none ↦ none
      | some o ↦ elim rest [ none ↦ none | some os ↦ some ((o, v) ∷ os) ]
    ]

abbrev pub order_of : Bool → Bool → Ordering
order_of true greater = Ordering.lt
order_of false true = Ordering.gt
order_of false false = Ordering.eq

abbrev pub within : RangeOperator → Ordering → Bool
within gt Ordering.gt = true
within gt _ = false
within gte Ordering.lt = false
within gte _ = true
within lt Ordering.lt = true
within lt _ = false
within lte Ordering.gt = false
within lte _ = true

module _ {N : Type 0} ⦃numbers : Number N⦄ where
  unfoldable pub range_bounds :
      List (RangeOperator × Js N) → Result FilterError (List (RangeOperator × Bound N))
  range_bounds [] = ok []
  range_bounds ((o, str s) ∷ es) = do rest ← range_bounds es; ok ((o, text s) ∷ rest)
  range_bounds ((o, num n) ∷ es) = do
    require (numbers.is_finite n) invalid_range_bound
    rest ← range_bounds es
    ok ((o, number n) ∷ rest)
  range_bounds ((o, v) ∷ es) = err invalid_range_bound

  -- The second half of `whereCondition`, on the entries of a plain object.
  unfoldable pub range_condition : List (Str × Js N) → Result FilterError (WhereCondition N)
  unfolding range_keys range_bounds
  range_condition [] = err non_scalar_filter
  range_condition (e ∷ es) = elim (range_keys (e ∷ es)) [
    | none ↦ err non_scalar_filter
    | some bounds ↦ do checked ← range_bounds bounds; ok (range checked)
  ]

  -- `whereCondition(value)`
  unfoldable pub where_condition : Js N → Result FilterError (WhereCondition N)
  unfolding range_condition
  where_condition null = ok (equals null)
  where_condition (str s) = ok (equals (str s))
  where_condition (bool b) = ok (equals (bool b))
  where_condition (num n) = do require (numbers.is_finite n) non_finite_number; ok (equals (num n))
  where_condition (obj fs) = range_condition (entries fs)
  where_condition _ = err non_scalar_filter

  -- `assertWhere(where)`
  unfoldable pub assert_where : List (Str × Js N) → Result FilterError (Unit {0})
  unfolding where_condition
  assert_where [] = ok tt
  assert_where ((k, v) ∷ es) = do _ ← where_condition v; assert_where es

  -- The loop of `assertInValues`.
  unfoldable pub assert_scalars : List (Js N) → Result FilterError (Unit {0})
  assert_scalars [] = ok tt
  assert_scalars (num n ∷ vs) = do
    require (numbers.is_finite n) non_finite_number
    assert_scalars vs
  assert_scalars (null ∷ vs) = assert_scalars vs
  assert_scalars (str s ∷ vs) = assert_scalars vs
  assert_scalars (bool b ∷ vs) = assert_scalars vs
  assert_scalars (v ∷ vs) = err non_scalar_in_value

  -- `assertInValues(values)`
  unfoldable pub assert_in_values : List (Js N) → Result FilterError (Unit {0})
  unfolding assert_scalars
  assert_in_values values = do
    require (not (ltb max_in_values (length values))) too_many_in_values
    assert_scalars values

  -- One bound of `inRange`.
  unfoldable pub in_bound : Js N → RangeOperator × Bound N → Bool
  in_bound (num n) (o, number b) = within o (order_of (numbers.lt n b) (numbers.lt b n))
  in_bound (str s) (o, text b) = within o (compare_code_points s b)
  in_bound stored (o, b) = false

  -- `inRange(stored, bounds)`
  unfoldable pub in_range : Js N → List (RangeOperator × Bound N) → Bool
  unfolding in_bound
  in_range stored [] = true
  in_range stored (b ∷ bs) = in_bound stored b && in_range stored bs

  -- `a === b` where one of the two is a scalar: a value of another type is another value.
  unfoldable pub strict_eq : Js N → Js N → Bool
  strict_eq undefined undefined = true
  strict_eq null null = true
  strict_eq (bool true) (bool b) = b
  strict_eq (bool false) (bool b) = not b
  strict_eq (num m) (num n) = numbers.eq m n
  strict_eq (str s) (str t) = str_eq s t
  strict_eq a b = false

-- The fields of an item of a collection. An array has no `id`, so none is ever put.
abbrev pub item_fields : {N : Type 0} → Js N → Option (Fields N)
item_fields (obj fs) = some fs
item_fields (instance_of fs) = some fs
item_fields _ = none

-- `(a as Record<string, unknown>)[field]`
abbrev pub item_field : {N : Type 0} → Str → Js N → Js N
item_field k item = elim (item_fields item) [ none ↦ undefined | some fs ↦ at k fs ]

-- `<` of the language on two values that are neither both strings nor both numbers: what it answers
-- after its conversions.
pub record Coercion (N : Type 0) : Type 0 where
  pub converted_lt : Js N → Js N → Bool

abbrev pub is_missing : {N : Type 0} → Js N → Bool
is_missing undefined = true
is_missing null = true
is_missing _ = false

abbrev pub directed : Bool → Ordering → Ordering
directed true o = flip o
directed false o = o

module _ {N : Type 0} ⦃numbers : Number N⦄ ⦃coercion : Coercion N⦄ where
  unfoldable pub less : Js N → Js N → Bool
  less (num m) (num n) = numbers.lt m n
  less a b = coercion.converted_lt a b

  -- Two values of the sorted field that are both there.
  unfoldable pub compare_present : Bool → Js N → Js N → Ordering
  unfolding less strict_eq
  compare_present descending (str s) (str t) = directed descending (compare_code_points s t)
  compare_present descending a b =
      if strict_eq a b
      then Ordering.eq
      else directed descending (if less a b then Ordering.lt else Ordering.gt)

  -- The comparator of `sortAndPageStoreItems`: what is missing comes last in both directions.
  unfoldable pub compare_values : Bool → Js N → Js N → Ordering
  unfolding compare_present
  compare_values descending a b =
      if is_missing a
      then (if is_missing b then Ordering.eq else Ordering.gt)
      else if is_missing b
      then Ordering.lt
      else compare_present descending a b

  abbrev pub compare_items : Bool → Str → Js N → Js N → Ordering
  compare_items descending field a b =
      compare_values descending (item_field field a) (item_field field b)

  -- An empty field name is no sort.
  unfoldable pub sort_items : Option Str → Bool → List (Js N) → List (Js N)
  sort_items none descending items = items
  sort_items (some field) descending items =
      if is_empty field then items else sort (compare_items descending field) items

-- `if (offset > 0) result.slice(Math.floor(offset))`
unfoldable pub skip : {A : Type 0} → Option Amount → List A → List A
skip (some (floor_of n)) items = drop n items
skip (some infinite) items = []
skip _ items = items

-- `result.slice(0, Math.max(0, Math.floor(limit)))`
unfoldable pub page_cap : {A : Type 0} → Option Amount → List A → List A
page_cap none items = items
page_cap (some (floor_of n)) items = take n items
page_cap (some infinite) items = items
page_cap (some _) items = []

module _ {N : Type 0} ⦃numbers : Number N⦄ ⦃coercion : Coercion N⦄ where
  -- `sortAndPageStoreItems(items, filter)`
  unfoldable pub sort_and_page : List (Js N) → StoreFilter N → List (Js N)
  unfolding sort_items skip page_cap
  sort_and_page items filter =
      page_cap filter.limit (skip filter.offset (sort_items filter.sort_by filter.descending items))
