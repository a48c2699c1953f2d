-- ===== src/Graph/Adjacency.antt =====
-- The edges that a search is given at a node, from the index and from a query of one level
-- (packages/store/src/graph.ts).
use mirk.Common.{
  Member, Member-append_last, ◌≡◌, ◌↔◌, refl, ap, Bool, true, List, [], ◌∷◌, ◌++◌, arith, ◌⊎◌, inl,
  inr, filter, Bool-cases, if◌then◌else◌,
}
use mirk.Text.{Str, str_eq}
use mirk.Text.Units.{str_eq_iff}
use mirk.Map
use mirk.Map.{Map}
use mirk.Map.Laws.{get-set}
use mirk.Graph.{
  Edge, Direction, outward, inward, both, EdgeStore, TraversalOptions, or_outward, far, is_adjacent,
  at_node, edges_or_empty, add_adjacent, index_edges, filter_by_types, fetch_indexed,
}
use mirk.Graph.Sets.{leads}

pub Member-filter :
    {A : Type 0} (p : A → Bool) (a : A) (xs : List A)
    → Member a (filter p xs) ↔ (Member a xs × (p a ≡ true))
unfolding filter
Member-filter p a [] = ground arith
Member-filter p a (x ∷ xs) = elim (Bool-cases (p x)) [
  | inl e ↦ rw (e, filter) (ground (arith, Member-filter p a xs, ap p))
  | inr e ↦ rw (e, filter) (ground (arith, Member-filter p a xs, ap p))
]

module _ {N : Type 0} where
  -- The edge joins `u` to `v` in the direction.
  abbrev pub Joins : Direction → Edge N → Str → Str → Type 0
  Joins outward e u v = (e.from ≡ u) × (e.to ≡ v)
  Joins inward e u v = (e.to ≡ u) × (e.from ≡ v)
  Joins both e u v = ((e.from ≡ u) × (e.to ≡ v)) ⊎ ((e.to ≡ u) × (e.from ≡ v))

  -- One of the edges joins `u` to `v`.
  abbrev pub Links : Direction → List (Edge N) → Str → Str → Type 0
  Links direction edges u v = (e : Edge N) × Member e edges × Joins direction e u v

  far-Joins :
      (d : Direction) (e : Edge N) (u v : Str)
      → ((is_adjacent d u e ≡ true) × (str_eq (far u e) v ≡ true)) ↔ Joins d e u v
  unfolding is_adjacent
  far-Joins outward e u v =
      ground (arith, str_eq_iff e.from u, str_eq_iff e.to v, str_eq_iff e.from v)
  far-Joins inward e u v =
      ground (arith, str_eq_iff e.from u, str_eq_iff e.to u, str_eq_iff e.to v, str_eq_iff e.from v)
  far-Joins both e u v =
      ground (arith, str_eq_iff e.from u, str_eq_iff e.to u, str_eq_iff e.to v, str_eq_iff e.from v)

  leads_iff :
      (u : Str) (es : List (Edge N)) (v : Str)
      → (leads u es v ≡ true) ↔ ((e : Edge N) × Member e es × (str_eq (far u e) v ≡ true))
  leads_iff u [] v = (λ h. cc, λ (e, m, h). absurd m)
  leads_iff u (x ∷ es) v = (
    λ h. elim (Bool-cases (str_eq (far u x) v)) [
      | inl p ↦ (x, inl refl, p)
      | inr p ↦ let (e, m, q) = (leads_iff u es v).0 (ground arith) in (e, inr m, q)
    ],
    λ (e, m, h). elim m [
      | inl p ↦ ground arith
      | inr m' ↦ let q = (leads_iff u es v).1 (e, m', h) in ground arith
    ],
  )

  -- Edges that are those of `edges` at `u` lead where the links lead.
  pub leads-Links :
      (d : Direction) (edges es : List (Edge N)) (u v : Str)
      → ((e : Edge N) → Member e es ↔ (Member e edges × (is_adjacent d u e ≡ true)))
      → (leads u es v ≡ true) ↔ Links d edges u v
  leads-Links d edges es u v same = (
    λ h.
        let (e, m, q) = (leads_iff u es v).0 h in
        let (m', a) = (same e).0 m in (e, m', (far-Joins d e u v).0 (a, q)),
    λ (e, m, j).
        let (a, q) = (far-Joins d e u v).1 j in (leads_iff u es v).1 (e, (same e).1 (m, a), q),
  )

  -- One edge more at the node `k`.
  at_node-add_adjacent :
      (k u : Str) (x : Edge N) (m : Map (List (Edge N)))
      → at_node u (add_adjacent k x m) ≡ (if str_eq k u then at_node k m ++ x ∷ [] else at_node u m)
  unfolding add_adjacent
  at_node-add_adjacent k u x m =
      let e = ap edges_or_empty (get-set k u (at_node k m ++ x ∷ []) m) in
      elim (Bool-cases (str_eq k u)) [
        | inl same ↦ ground (arith, e)
        | inr other ↦ ground (arith, e)
      ]

  Member-at_node-add_adjacent :
      (k u : Str) (x e : Edge N) (m : Map (List (Edge N)))
      → Member e (at_node u (add_adjacent k x m))
        ↔ (Member e (at_node u m) ⊎ (str_eq k u ≡ true) × (e ≡ x))
  Member-at_node-add_adjacent k u x e m = elim (Bool-cases (str_eq k u)) [
    | inl same ↦
        rw (at_node-add_adjacent, same, (str_eq_iff k u).0 same)
          (ground (arith, Member-append_last e x (at_node u m)))
    | inr other ↦ rw (at_node-add_adjacent, other) (ground arith)
  ]

  at_node-index_edges :
      (d : Direction) (u : Str) (e : Edge N) (es : List (Edge N)) (m : Map (List (Edge N)))
      → Member e (at_node u (index_edges d es m))
        ↔ (Member e (at_node u m) ⊎ Member e es × (is_adjacent d u e ≡ true))
  unfolding index_edges is_adjacent
  at_node-index_edges d u e [] m = ground arith
  at_node-index_edges outward u e (x ∷ es) m = ground (
    arith,
    at_node-index_edges outward u e es (add_adjacent x.from x m),
    Member-at_node-add_adjacent x.from u x e m,
  )
  at_node-index_edges inward u e (x ∷ es) m = ground (
    arith,
    at_node-index_edges inward u e es (add_adjacent x.to x m),
    Member-at_node-add_adjacent x.to u x e m,
  )
  at_node-index_edges both u e (x ∷ es) m = ground (
    arith,
    at_node-index_edges both u e es (add_adjacent x.to x (add_adjacent x.from x m)),
    Member-at_node-add_adjacent x.to u x e (add_adjacent x.from x m),
    Member-at_node-add_adjacent x.from u x e m,
  )

  -- The edges that the store loads, of the types asked for.
  abbrev pub candidates : EdgeStore N → Str → TraversalOptions N → List (Edge N)
  candidates store collection opts =
      filter_by_types opts.edge_types (store.list collection opts.edge_filter)

  pub fetch_indexed-leads :
      (store : EdgeStore N) (c : Str) (opts : TraversalOptions N) (us : List Str) (u v : Str)
      → (leads u (fetch_indexed store c opts us u) v ≡ true)
        ↔ Links (or_outward opts.direction) (candidates store c opts) u v
  unfolding fetch_indexed Map.get
  fetch_indexed-leads store c opts us u v =
      leads-Links (or_outward opts.direction) (candidates store c opts)
        (fetch_indexed store c opts us u) u v
        (λ e.
          ground (
            arith,
            at_node-index_edges (or_outward opts.direction) u e (candidates store c opts) [],
          ))
