-- ===== src/Memory/Listing.antt =====
-- The listing of keys of `InMemoryStore` (packages/store/src/backends/memory.ts).
use mirk.Common.{filter, ◌≡◌, refl, sym, ap, Option, none, some, List, [], ◌∷◌, arith}
use mathlib.Core.List.{Perm}
use mirk.Text.{Str, compare_code_points}
use mirk.Text.Preorder.{compare_code_points_total, compare_code_points_below}
use mirk.Map
use mirk.Map.{Map}
use mirk.Sort.{sort}
use mirk.Sort.Laws.{IsSorted, sort-perm, sort-IsSorted}
use mirk.Memory.State.{Store}
use mirk.Memory.Values.{starts_with, keys}

-- The prefix that is asked for; none is the empty one.
abbrev pub prefix_of : Option Str → Str
prefix_of none = []
prefix_of (some p) = p

filter-every : (ks : List Str) → filter (λ k. starts_with [] k) ks ≡ ks
unfolding starts_with filter
filter-every [] = refl
filter-every (k ∷ ks) = ground (arith, filter-every ks)

module _ {N : Type 0} where
  keys_lem :
      (prefix : Option Str) (s : Store N)
      → keys prefix s
        ≡ sort compare_code_points (filter (λ k. starts_with (prefix_of prefix) k) (Map.keys s.kv))
  unfolding keys
  keys_lem none s = ap (sort compare_code_points) (sym (filter-every (Map.keys s.kv)))
  keys_lem (some []) s = ap (sort compare_code_points) (sym (filter-every (Map.keys s.kv)))
  keys_lem (some (u ∷ p)) s = refl

  -- keys lists exactly the stored keys with the prefix, each as often as it is stored, in
  -- ascending code point order.
  pub keys-IsSorted :
      (prefix : Option Str) (s : Store N)
      → IsSorted compare_code_points (keys prefix s)
        × Perm (keys prefix s) (filter (λ k. starts_with (prefix_of prefix) k) (Map.keys s.kv))
  keys-IsSorted prefix s = rw (keys_lem prefix s) (
    sort-IsSorted compare_code_points compare_code_points_total compare_code_points_below _,
    sort-perm compare_code_points _,
  )
