-- ===== src/Graph/Reach.antt =====
-- What the traversals reach: the nodes within the depth, by the index or level by level
-- (packages/store/src/graph.ts).
use mirk.Common.{
  Member, ◌≡◌, ◌≢◌, ◌↔◌, ℕ, refl, ap, sym, ◌∙◌, true, false, ◌||◌, List, [], ◌∷◌, Ordering, arith,
}
use mirk.Text.{Str, str_eq, compare_code_points}
use mirk.Sort.{insert, sort}
use mirk.Graph.{
  Edge, hops_of, EdgeStore, TraversalOptions, or_outward, includes, begin, run_hops, finish,
  breadth_first, fetch_indexed, traverse,
}
use mirk.Graph.Sets.{leads}
use mirk.Graph.Levels.{Within, IsFrontier, search-reached}
use mirk.Graph.Adjacency.{Links, candidates, fetch_indexed-leads}

includes-insert :
    (cmp : Str → Str → Ordering) (v x : Str) (xs : List Str)
    → includes v (insert cmp x xs) ≡ includes v (x ∷ xs)
unfolding includes insert
includes-insert cmp v x [] = refl
includes-insert cmp v x (y ∷ ys) = ground (arith, includes-insert cmp v x ys)

includes-sort :
    (cmp : Str → Str → Ordering) (v : Str) (xs : List Str)
    → includes v (sort cmp xs) ≡ includes v xs
unfolding includes sort
includes-sort cmp v [] = refl
includes-sort cmp v (x ∷ xs) =
    includes-insert cmp v x (sort cmp xs) ∙ ap (λ b. str_eq x v || b) (includes-sort cmp v xs)

module _ {N : Type 0} where
  pub breadth_first-reached :
      (Links' : Str → Str → Type 0) (start : Str) (fetch : List Str → Str → List (Edge N))
      → ((us : List Str) (u v : Str)
          → IsFrontier Links' start us
          → Member u us
          → (leads u (fetch us u) v ≡ true) ↔ Links' u v)
      → (n : ℕ) (v : Str)
      → (includes v (breadth_first fetch (hops_of n) start).nodes ≡ true)
        ↔ ((v ≢ start) × Within Links' start n v)
  unfolding breadth_first finish
  breadth_first-reached Links' start fetch fetches n v =
      let e =
        includes-sort compare_code_points v (run_hops fetch n (start ∷ []) (begin start)).reached in
      let (to, of) = search-reached Links' start fetch fetches n v in
      (λ h. to (sym e ∙ h), λ w. e ∙ of w)

  -- Over a store without a traversal of its own, and for a depth of n hops, traverse reaches
  -- exactly the nodes other than the start to which at most n of the loaded edges of the wanted
  -- types lead from the start in the wanted direction.
  pub traverse-reached :
      (store : EdgeStore N) (collection : Str) (opts : TraversalOptions N) (n : ℕ) (v : Str)
      → store.can_traverse collection ≡ false
      → opts.depth ≡ hops_of n
      → (includes v (traverse store collection opts).nodes ≡ true) ↔ (
          (v ≢ opts.start)
          × Within
              (Links (or_outward opts.direction) (candidates store collection opts))
              opts.start
              n
              v)
  unfolding traverse
  traverse-reached store c opts n v plain deep =
      rw (plain, deep)
        (breadth_first-reached (Links (or_outward opts.direction) (candidates store c opts))
          opts.start (fetch_indexed store c opts)
          (λ us u w f m. fetch_indexed-leads store c opts us u w) n v)
