-- ===== src/Memory/Looks.antt =====
-- The queries of an `InMemoryStore` change nothing that can be seen
-- (packages/store/src/backends/memory.ts).
use mirk.Common.Result.{Result-cases}
use mirk.Common.{◌≡◌, refl, false, none, some, List, [], ◌∷◌, Option, ◌⊎◌, inl, inr}
use mirk.Text.{Str, is_empty}
use mirk.Js.{Number, Js}
use mirk.Filter.{StoreFilter, Coercion, assert_in_values}
use mirk.Memory.State.{Store, continue}
use mirk.Memory.Values.{get_by_id}
use mirk.Memory.Queries.{
  list, list_where_in, count, ensure_index, apply_filter, assert_conditions, checked, conditions_of,
}
use mirk.Memory.Collections.{ensured, ensure_collection_lem}

module _ {N : Type 0} ⦃numbers : Number N⦄ where
  pub get_by_id-state :
      (c i : Str) (s : Store N) → is_empty c ≡ false → (get_by_id c i s).1 ≡ ensured c s
  unfolding get_by_id continue
  get_by_id-state c i s h = rw (ensure_collection_lem c s h, get_by_id)

  pub count-state :
      (c : Str) (f : Option (StoreFilter N)) (s : Store N)
      → is_empty c ≡ false
      → (count c f s).1 ≡ ensured c s
  unfolding count continue checked
  count-state c none s h = rw (ensure_collection_lem c s h, count)
  count-state c (some f) s h = elim (Result-cases (assert_conditions f.conditions)) [
    | inl (u, e) ↦ rw (ensure_collection_lem c s h, count) (rw (e, count))
    | inr (x, e) ↦ rw (ensure_collection_lem c s h, count) (rw (e, count))
  ]

  pub ensure_index-state :
      (c k : Str) (s : Store N) → is_empty c ≡ false → (ensure_index c k s).1 ≡ ensured c s
  unfolding ensure_index continue
  ensure_index-state c k s h = rw (ensure_collection_lem c s h, ensure_index)

module _ {N : Type 0} ⦃numbers : Number N⦄ ⦃coercion : Coercion N⦄ where
  apply_filter-state :
      (items : List (Js N)) (f : Option (StoreFilter N)) (s : Store N)
      → (apply_filter items f s).1 ≡ s
  unfolding apply_filter continue checked
  apply_filter-state items none s = refl
  apply_filter-state items (some f) s = elim (Result-cases (assert_conditions f.conditions)) [
    | inl (u, e) ↦ rw (e, apply_filter)
    | inr (x, e) ↦ rw (e, apply_filter)
  ]

  pub list-state :
      (c : Str) (f : Option (StoreFilter N)) (s : Store N)
      → is_empty c ≡ false
      → (list c f s).1 ≡ ensured c s
  unfolding list continue
  list-state c f s h = rw (ensure_collection_lem c s h, list) (apply_filter-state _ f (ensured c s))

  -- Values that cannot be asked for leave the collection alone; so do no values.
  pub list_where_in-state :
      (c k : Str) (vs : List (Js N)) (f : Option (StoreFilter N)) (s : Store N)
      → is_empty c ≡ false
      → ((list_where_in c k vs f s).1 ≡ s) ⊎ ((list_where_in c k vs f s).1 ≡ ensured c s)
  unfolding list_where_in continue checked
  list_where_in-state c k [] f s h = inl refl
  list_where_in-state c k (v ∷ vs) f s h =
      elim (Result-cases (assert_conditions (conditions_of f))) [
        | inr (x, e) ↦ inl (rw (e, list_where_in))
        | inl (u, e) ↦ elim (Result-cases (assert_in_values (v ∷ vs))) [
          | inr (x, g) ↦ inl (rw (e, list_where_in) (rw (g, list_where_in)))
          | inl (w, g) ↦ inr (
              rw (e, list_where_in)
                (rw (g, list_where_in)
                  (rw (ensure_collection_lem c s h, list_where_in)
                    (apply_filter-state _ f (ensured c s)))))
        ]
      ]
