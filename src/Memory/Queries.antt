-- ===== src/Memory/Queries.antt =====
-- The queries of `InMemoryStore` on collections: `list`, `listWhereIn`, `count` and `ensureIndex`
-- (packages/store/src/backends/memory.ts).
use mirk.Common.{
  ℕ, Bool, true, false, ◌&&◌, ◌||◌, Option, none, some, List, [], ◌∷◌, length, filter,
}
use mirk.Common.Result.{Result, ok, err}
use mirk.Text.{Str}
use mirk.Map
use mirk.Js.{Number, Js, Fields, at, entries}
use mirk.Filter.{
  FilterError, WhereCondition, equals, range, StoreFilter, where_condition, assert_where,
  assert_in_values, in_range, strict_eq, item_fields, Coercion, sort_and_page,
}
use mirk.Memory.State.{Act, invalid_filter, pure, throw, continue, ◌>>=◌, ◌>>◌}
use mirk.Memory.Values.{ensure_collection}

module _ {N : Type 0} where
  -- What a check of the arguments throws.
  unfoldable pub checked : {A : Type 0} → Result FilterError A → Act N A
  checked (ok a) = pure a
  checked (err e) = throw (invalid_filter e)

module _ {N : Type 0} ⦃numbers : Number N⦄ where
  -- One condition at the item's value; a condition that `assertWhere` refuses is not met.
  abbrev pub meets : Js N → Result FilterError (WhereCondition N) → Bool
  meets stored (ok (equals value)) = strict_eq stored value
  meets stored (ok (range bounds)) = in_range stored bounds
  meets stored (err e) = false

  abbrev pub matches_all : Fields N → List (Str × Js N) → Bool
  matches_all item [] = true
  matches_all item ((k, v) ∷ es) = meets (at k item) (where_condition v) && matches_all item es

  -- `matchesWhere(item, where)`
  unfoldable pub matches_where : Fields N → Js N → Bool
  matches_where conditions item = elim (item_fields item) [
    | none ↦ false
    | some fs ↦ matches_all fs (entries conditions)
  ]

  -- `new Set(values).has(value)`
  unfoldable pub contains : List (Js N) → Js N → Bool
  contains [] value = false
  contains (v ∷ vs) value = strict_eq value v || contains vs value

  -- The test of `listWhereIn` on one item.
  unfoldable pub field_in : Str → List (Js N) → Js N → Bool
  field_in field values item = elim (item_fields item) [
    | none ↦ false
    | some fs ↦ contains values (at field fs)
  ]

  -- `if (filter?.where) assertWhere(filter.where)`
  unfoldable pub assert_conditions : Option (Fields N) → Result FilterError (Unit {0})
  assert_conditions none = ok tt
  assert_conditions (some conditions) = assert_where (entries conditions)

  unfoldable pub select : Option (Fields N) → List (Js N) → List (Js N)
  select none items = items
  select (some conditions) items = filter (matches_where conditions) items

  -- `count(collection, filter)`, which reads only `where`.
  unfoldable pub count : Str → Option (StoreFilter N) → Act N ℕ
  unfolding continue checked select assert_conditions
  count collection none = do col ← ensure_collection collection; pure (length col)
  count collection (some f) = do
    col ← ensure_collection collection
    checked (assert_conditions f.conditions)
    pure (length (select f.conditions (Map.values col)))

  -- `ensureIndex(collection, field)`
  unfoldable pub ensure_index : Str → Str → Act N (Unit {0})
  unfolding continue
  ensure_index collection field = do _ ← ensure_collection collection; pure tt

module _ {N : Type 0} ⦃numbers : Number N⦄ ⦃coercion : Coercion N⦄ where
  -- `applyFilter(items, filter)`
  unfoldable pub apply_filter : List (Js N) → Option (StoreFilter N) → Act N (List (Js N))
  unfolding continue checked select assert_conditions
  apply_filter items none = pure items
  apply_filter items (some f) = do
    checked (assert_conditions f.conditions)
    pure (sort_and_page (select f.conditions items) f)

  -- `list(collection, filter)`
  unfoldable pub list : Str → Option (StoreFilter N) → Act N (List (Js N))
  unfolding continue apply_filter
  list collection f = do col ← ensure_collection collection; apply_filter (Map.values col) f

  abbrev pub conditions_of : Option (StoreFilter N) → Option (Fields N)
  conditions_of none = none
  conditions_of (some f) = f.conditions

  -- `listWhereIn(collection, field, values, filter)`: no values find nothing, whatever else is asked.
  unfoldable pub list_where_in :
      Str → Str → List (Js N) → Option (StoreFilter N) → Act N (List (Js N))
  unfolding continue apply_filter field_in checked assert_conditions
  list_where_in collection field [] f = pure []
  list_where_in collection field (v ∷ vs) f = do
    checked (assert_conditions (conditions_of f))
    checked (assert_in_values (v ∷ vs))
    col ← ensure_collection collection
    apply_filter (filter (field_in field (v ∷ vs)) (Map.values col)) f
