-- ===== src/Filter/Order.antt =====
-- Sorting by a field of texts, and paging (packages/store/src/order.ts).
use mirk.Common.{
  ℕ, ◌+◌, ◌≡◌, ap, ◌∙◌, Bool, Option, none, some, List, Ordering, get_elem?, get_elem?-drop,
  get_elem?-take, drop, ltb, if◌then◌else◌,
}
use mirk.Text.{Str, compare_code_points}
use mirk.Js.{Number, Js, str, undefined, null}
use mirk.Filter.{Coercion, floor_of, StoreFilter, directed, sort_items, sort_and_page}

-- A text, or nothing.
abbrev pub IsText : {N : Type 0} → Js N → Type 0
IsText undefined = Unit
IsText null = Unit
IsText (str s) = Unit
IsText _ = ⊥

abbrev pub text_of : {N : Type 0} → Js N → Option Str
text_of (str s) = some s
text_of _ = none

-- The order that the comparator is at texts: what is missing comes last.
abbrev pub compare_texts : Bool → Option Str → Option Str → Ordering
compare_texts d none none = Ordering.eq
compare_texts d none (some t) = Ordering.gt
compare_texts d (some s) none = Ordering.lt
compare_texts d (some s) (some t) = directed d (compare_code_points s t)

module _ {N : Type 0} ⦃numbers : Number N⦄ ⦃coercion : Coercion N⦄ where
  -- With a whole offset and a whole limit the page has, at each place before the limit, the
  -- sorted item that stands the offset further, and nothing from the limit on.
  pub get_elem?-sort_and_page :
      (items : List (Js N)) (f : StoreFilter N) (m n i : ℕ)
      → f.offset ≡ some (floor_of m)
      → f.limit ≡ some (floor_of n)
      → get_elem? (sort_and_page items f) i
        ≡ (if ltb i n then get_elem? (sort_items f.sort_by f.descending items) (m + i) else none)
  unfolding sort_and_page
  get_elem?-sort_and_page items f m n i p q =
      let items' = sort_items f.sort_by f.descending items in
      rw (p, q, sort_and_page)
        (get_elem?-take n i (drop m items')
          ∙ ap (λ o. if ltb i n then o else none) (get_elem?-drop m i items'))
