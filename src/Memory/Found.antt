-- ===== src/Memory/Found.antt =====
-- How the queries of `InMemoryStore` agree (packages/store/src/backends/memory.ts).
use mathlib.Core.Path.{fun_ext}
use mirk.Common.{
  ℕ, ◌≡◌, refl, sym, ap, Bool, false, Option, none, some, List, [], ◌∷◌, arith, length, filter,
}
use mirk.Common.Result.{Result, ok, err}
use mirk.Text.{Str}
use mirk.Map
use mirk.Sort.Laws.{length-sort}
use mirk.Js.{Number, Js, null, bool, num, str, obj, instance_of, end, field, entries}
use mirk.Filter.{
  FilterError, equals, StoreFilter, Coercion, where_condition, assert_where, assert_scalars,
  assert_in_values, compare_items, sort_items, skip, page_cap, sort_and_page,
}
use mirk.Memory.State.{Store, StoreError, continue, ◌>>◌, pure}
use mirk.Memory.Values.{ensure_collection}
use mirk.Memory.Queries.{
  checked, matches_where, contains, field_in, assert_conditions, select, count, apply_filter, list,
  list_where_in,
}

-- The answer with its items counted.
abbrev pub counted : {E A S : Type 0} → Result E (List A) × S → Result E ℕ × S
counted (ok items, s) = (ok (length items), s)
counted (err e, s) = (err e, s)

-- The filter without its page.
abbrev pub unpaged : {N : Type 0} → StoreFilter N → StoreFilter N
unpaged f = record f { limit = none; offset = none }

module _ {N : Type 0} ⦃numbers : Number N⦄ ⦃coercion : Coercion N⦄ where
  length-sort_items :
      (by : Option Str) (d : Bool) (items : List (Js N))
      → length (sort_items by d items) ≡ length items
  unfolding sort_items
  length-sort_items none d items = refl
  length-sort_items (some k) d items = ground (arith, length-sort (compare_items d k) items)

  count_checked :
      (o : Result FilterError (Unit {0})) (f : StoreFilter N) (items : List (Js N)) (s : Store N)
      → (checked o >> pure (length items)) s
        ≡ counted ((checked o >> pure (sort_and_page items (unpaged f))) s)
  unfolding checked continue sort_and_page skip page_cap
  count_checked (ok u) f items s =
      ap (λ n. (ok n, s)) (sym (length-sort_items f.sort_by f.descending items))
  count_checked (err e) f items s = refl

  count_found :
      (r : Result StoreError (Map.Map (Js N))) (f : StoreFilter N) (s : Store N)
      → continue r
          (λ col.
            checked (assert_conditions f.conditions)
            >> pure (length (select f.conditions (Map.values col))))
          s
        ≡ counted (continue r (λ col. apply_filter (Map.values col) (some (unpaged f))) s)
  unfolding continue apply_filter
  count_found (ok col) f s =
      count_checked (assert_conditions f.conditions) f (select f.conditions (Map.values col)) s
  count_found (err e) f s = refl

  -- count with a filter answers the number of items that list answers with the same conditions
  -- and no page, or the same error.
  pub count_lem :
      (c : Str) (f : StoreFilter N) (s : Store N)
      → count c (some f) s ≡ counted (list c (some (unpaged f)) s)
  unfolding count list
  count_lem c f s = count_found (ensure_collection c s).0 f (ensure_collection c s).1

  -- The filter of one field at one value.
  abbrev pub only : Str → Js N → StoreFilter N
  only k v = record {
    conditions = some (field k v end);
    sort_by = none;
    descending = false;
    limit = none;
    offset = none;
  }

  -- A value that `listWhereIn` takes is a condition of equality.
  scalar_condition :
      (v : Js N) → assert_in_values (v ∷ []) ≡ ok tt → where_condition v ≡ ok (equals v)
  unfolding assert_in_values where_condition assert_scalars
  scalar_condition null h = refl
  scalar_condition (bool b) h = refl
  scalar_condition (str t) h = refl
  scalar_condition (num n) h = ground arith
  scalar_condition v h = ground arith

  field_in-only :
      (k : Str) (v item : Js N)
      → where_condition v ≡ ok (equals v)
      → field_in k (v ∷ []) item ≡ matches_where (field k v end) item
  unfolding field_in matches_where contains entries
  field_in-only k v (obj fs) h = rw h (ground arith)
  field_in-only k v (instance_of fs) h = rw h (ground arith)
  field_in-only k v item h = refl

  only-asserted :
      (k : Str) (v : Js N)
      → where_condition v ≡ ok (equals v)
      → assert_conditions (some (field k v end)) ≡ ok tt
  unfolding assert_conditions assert_where entries
  only-asserted k v h = rw h refl

  only_found :
      (r : Result StoreError (Map.Map (Js N))) (k : Str) (v : Js N) (s : Store N)
      → where_condition v ≡ ok (equals v)
      → continue r (λ col. apply_filter (filter (field_in k (v ∷ [])) (Map.values col)) none) s
        ≡ continue r (λ col. apply_filter (Map.values col) (some (only k v))) s
  unfolding continue apply_filter checked select sort_and_page sort_items skip page_cap
  only_found (ok col) k v s h =
      rw (only-asserted k v h, checked)
        (ap (λ p. (ok (filter p (Map.values col)), s)) (fun_ext (λ item. field_in-only k v item h)))
  only_found (err e) k v s h = refl

  -- listWhereIn with one value that it accepts answers and changes the store as list does with
  -- the condition that the field equals the value.
  pub list_where_in-only :
      (c k : Str) (v : Js N) (s : Store N)
      → assert_in_values (v ∷ []) ≡ ok tt
      → list_where_in c k (v ∷ []) none s ≡ list c (some (only k v)) s
  unfolding list_where_in list checked continue
  list_where_in-only c k v s h =
      rw (h, checked)
        (only_found (ensure_collection c s).0 k v (ensure_collection c s).1 (scalar_condition v h))
