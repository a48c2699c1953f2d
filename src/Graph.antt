-- ===== src/Graph.antt =====
-- Graph traversal over a store (packages/store/src/graph.ts). A traversal reads a store that does not
-- change while it runs; what the store answers is a parameter.
pub mod Sets
pub mod Distinct
pub mod Frontier
pub mod Levels
pub mod Adjacency
pub mod Reach
pub mod Batched
pub mod InMemory
use mirk.Common.{
  ℕ, zero, suc, Bool, false, ◌||◌, Option, none, some, List, [], ◌∷◌, ◌++◌, filter, if◌then◌else◌,
}
use mirk.Text.{Str, ascii, str_eq, compare_code_points}
use mirk.Sort.{sort}
use mirk.Map
use mirk.Map.{Map}
use mirk.Js.{Js, str, Fields, end, field}
use mirk.Filter.{StoreFilter}

pub record Edge (N : Type 0) : Type 0 where
  pub id : Str
  pub from : Str
  pub to : Str
  pub kind : Str
  pub rest : Fields N

pub data Direction : Type 0 where
  outward inward both : Direction

-- A depth: not finite, not positive, or the number of hops that it allows, its ceiling.
pub data Depth : Type 0 where
  not_finite not_positive : Depth
  hops_of : ℕ → Depth

pub record TraversalOptions (N : Type 0) : Type 0 where
  pub start : Str
  pub depth : Depth
  pub direction : Option Direction
  pub edge_types : Option (List Str)
  pub edge_filter : Option (StoreFilter N)

pub record TraversalResult (N : Type 0) : Type 0 where
  pub nodes : List Str
  pub edges : List (Edge N)

-- What a traversal uses of an `AsyncStore` and of its optional capabilities.
pub record EdgeStore (N : Type 0) : Type 0 where
  pub list : Str → Option (StoreFilter N) → List (Edge N)
  pub list_where_in : Option (Str → Str → List Str → Option (StoreFilter N) → List (Edge N))
  pub can_traverse : Str → Bool
  pub traverse_graph : Str → TraversalOptions N → TraversalResult N

-- The sets and arrays of a breadth-first search; `next` is the level that is being collected.
pub record Search (N : Type 0) : Type 0 where
  pub visited : List Str
  pub reached : List Str
  pub traversed : List (Edge N)
  pub seen_ids : List Str
  pub next : List Str

-- `set.has(value)`
unfoldable pub includes : Str → List Str → Bool
includes k [] = false
includes k (s ∷ ss) = str_eq s k || includes k ss

abbrev pub or_outward : Option Direction → Direction
or_outward none = outward
or_outward (some d) = d

module _ {N : Type 0} where
  -- `filterByTypes(edges, edgeTypes)`
  unfoldable pub filter_by_types : Option (List Str) → List (Edge N) → List (Edge N)
  unfolding includes
  filter_by_types none edges = edges
  filter_by_types (some []) edges = edges
  filter_by_types (some (t ∷ ts)) edges = filter (λ e. includes e.kind (t ∷ ts)) edges

  -- The loop of `dedupById`, with the ids that were seen.
  unfoldable pub dedup_from : List Str → List (Edge N) → List (Edge N)
  unfolding includes
  dedup_from seen [] = []
  dedup_from seen (e ∷ es) =
      let fresh = e ∷ dedup_from (e.id ∷ seen) es in
      let old = dedup_from seen es in if includes e.id seen then old else fresh

  -- `dedupById(edges)`
  unfoldable pub dedup_by_id : List (Edge N) → List (Edge N)
  unfolding dedup_from
  dedup_by_id edges = dedup_from [] edges

  -- `{ ...fields, [k]: v }`
  unfoldable pub with_field : Str → Js N → Fields N → Fields N
  with_field k v end = field k v end
  with_field k v (field j w fs) = if str_eq j k then field k v fs else field j w (with_field k v fs)

  unfoldable pub without_field : Str → Fields N → Fields N
  without_field k end = end
  without_field k (field j w fs) =
      let rest = without_field k fs in if str_eq j k then rest else field j w rest

  abbrev pub conditions_or_empty : Option (Fields N) → Fields N
  conditions_or_empty none = end
  conditions_or_empty (some fs) = fs

  -- `withWhere(filter, { [k]: v })`
  unfoldable pub with_where : Option (StoreFilter N) → Str → Str → StoreFilter N
  unfolding with_field
  with_where none k v = record {
    conditions = some (field k (str v) end);
    sort_by = none;
    descending = false;
    limit = none;
    offset = none;
  }
  with_where (some f) k v = record f {
    conditions = some (with_field k (str v) (conditions_or_empty f.conditions));
  }

  abbrev cleared : Str → Option (Fields N) → Option (Fields N)
  cleared k none = none
  cleared k (some fs) = some (without_field k fs)

  -- `withoutWhereField(filter, field)`
  unfoldable pub without_where_field : Option (StoreFilter N) → Str → Option (StoreFilter N)
  unfolding without_field
  without_where_field none k = none
  without_where_field (some f) k = some (record f { conditions = cleared k f.conditions })

  -- `neighbors(store, collection, { from, direction, edgeTypes, edgeFilter })`
  unfoldable pub neighbors :
      EdgeStore N
      → Str
      → Str
      → Option Direction
      → Option (List Str)
      → Option (StoreFilter N)
      → List (Edge N)
  unfolding filter_by_types dedup_by_id
  neighbors store collection node direction edge_types edge_filter =
      let out = store.list collection (some (with_where edge_filter (ascii "from") node)) in
      let inc = store.list collection (some (with_where edge_filter (ascii "to") node)) in
      filter_by_types edge_types (elim (or_outward direction) [
        | outward ↦ out
        | inward ↦ inc
        | both ↦ dedup_by_id (out ++ inc)
      ])

  abbrev pub edges_or_empty : Option (List (Edge N)) → List (Edge N)
  edges_or_empty none = []
  edges_or_empty (some es) = es

  -- The edges at a node.
  abbrev pub at_node : Str → Map (List (Edge N)) → List (Edge N)
  at_node node m = edges_or_empty (Map.get node m)

  -- `addAdj(node, edge)`
  unfoldable pub add_adjacent : Str → Edge N → Map (List (Edge N)) → Map (List (Edge N))
  add_adjacent node e m = Map.set node (at_node node m ++ e ∷ []) m

  -- The loop that builds the adjacency index.
  unfoldable pub index_edges : Direction → List (Edge N) → Map (List (Edge N)) → Map (List (Edge N))
  unfolding add_adjacent
  index_edges direction [] m = m
  index_edges outward (e ∷ es) m = index_edges outward es (add_adjacent e.from e m)
  index_edges inward (e ∷ es) m = index_edges inward es (add_adjacent e.to e m)
  index_edges both (e ∷ es) m = index_edges both es (add_adjacent e.to e (add_adjacent e.from e m))

  -- The far endpoint of an edge relative to a node.
  abbrev pub far : Str → Edge N → Str
  far node e = if str_eq e.from node then e.to else e.from

  unfoldable pub note_edge : Edge N → Search N → Search N
  unfolding includes
  note_edge e s =
      if includes e.id s.seen_ids
      then s
      else record s { seen_ids = e.id ∷ s.seen_ids; traversed = s.traversed ++ e ∷ [] }

  unfoldable pub note_node : Str → Search N → Search N
  unfolding includes
  note_node v s = if includes v s.visited then s else record s {
    visited = v ∷ s.visited;
    reached = s.reached ++ v ∷ [];
    next = s.next ++ v ∷ [];
  }

  -- The inner loop, over the edges at one node.
  unfoldable pub visit_edges : Str → List (Edge N) → Search N → Search N
  unfolding note_edge note_node
  visit_edges node [] s = s
  visit_edges node (e ∷ es) s = visit_edges node es (note_node (far node e) (note_edge e s))

  -- The loop over the frontier; `fetched` gives the edges at a node.
  unfoldable pub visit_level : (Str → List (Edge N)) → List Str → Search N → Search N
  unfolding visit_edges
  visit_level fetched [] s = s
  visit_level fetched (u ∷ us) s = visit_level fetched us (visit_edges u (fetched u) s)

  -- The loop over the hops; `fetch` gives the edges at the nodes of a frontier.
  unfoldable pub run_hops : (List Str → Str → List (Edge N)) → ℕ → List Str → Search N → Search N
  unfolding visit_level
  run_hops fetch zero frontier s = s
  run_hops fetch (suc left) [] s = s
  run_hops fetch (suc left) (u ∷ us) s =
      let s' = visit_level (fetch (u ∷ us)) (u ∷ us) (record s { next = [] }) in
      run_hops fetch left s'.next s'

  unfoldable pub begin : Str → Search N
  begin start = record {
    visited = start ∷ [];
    reached = [];
    traversed = [];
    seen_ids = [];
    next = [];
  }

  -- Both arrays of the result, sorted.
  unfoldable pub finish : Search N → TraversalResult N
  finish s = record {
    nodes = sort compare_code_points s.reached;
    edges = sort (λ a b. compare_code_points a.id b.id) s.traversed;
  }

  abbrev pub nothing : TraversalResult N
  nothing = record { nodes = []; edges = [] }

  unfoldable pub breadth_first : (List Str → Str → List (Edge N)) → Depth → Str → TraversalResult N
  unfolding run_hops begin finish
  breadth_first fetch not_finite start = nothing
  breadth_first fetch not_positive start = nothing
  breadth_first fetch (hops_of n) start = finish (run_hops fetch n (start ∷ []) (begin start))

  -- The candidate edges, loaded once and indexed.
  unfoldable pub fetch_indexed :
      EdgeStore N → Str → TraversalOptions N → List Str → Str → List (Edge N)
  unfolding filter_by_types index_edges
  fetch_indexed store collection opts frontier node = at_node node (
      index_edges (or_outward opts.direction)
        (filter_by_types opts.edge_types (store.list collection opts.edge_filter)) [])

  -- `traverse(store, collection, opts)`
  unfoldable pub traverse : EdgeStore N → Str → TraversalOptions N → TraversalResult N
  unfolding breadth_first fetch_indexed
  traverse store collection opts =
      if store.can_traverse collection
      then store.traverse_graph collection opts
      else breadth_first (fetch_indexed store collection opts) opts.depth opts.start

  -- `frontierEdges(store, collection, frontier, direction, edgeFilter)`
  unfoldable pub frontier_edges :
      (Str → Str → List Str → Option (StoreFilter N) → List (Edge N))
      → Str
      → List Str
      → Direction
      → Option (StoreFilter N)
      → List (Edge N)
  unfolding without_where_field dedup_by_id
  frontier_edges where_in collection frontier direction edge_filter =
      let out =
        where_in collection (ascii "from") frontier
          (without_where_field edge_filter (ascii "from")) in
      let inc =
        where_in collection (ascii "to") frontier (without_where_field edge_filter (ascii "to")) in
      elim direction [ outward ↦ out | inward ↦ inc | both ↦ dedup_by_id (out ++ inc) ]

  unfoldable pub is_adjacent : Direction → Str → Edge N → Bool
  is_adjacent outward node e = str_eq e.from node
  is_adjacent inward node e = str_eq e.to node
  is_adjacent both node e = str_eq e.from node || str_eq e.to node

  -- The edges of one level, and of those the ones at a node.
  unfoldable pub fetch_frontier :
      (Str → Str → List Str → Option (StoreFilter N) → List (Edge N))
      → Str
      → TraversalOptions N
      → List Str
      → Str
      → List (Edge N)
  unfolding filter_by_types frontier_edges is_adjacent
  fetch_frontier where_in collection opts frontier node =
      filter (is_adjacent (or_outward opts.direction) node) (
        filter_by_types opts.edge_types (
          frontier_edges where_in collection frontier (or_outward opts.direction) opts.edge_filter))

  -- `traverseFrontierBatched(store, collection, opts)`
  unfoldable pub traverse_frontier_batched :
      EdgeStore N → Str → TraversalOptions N → TraversalResult N
  unfolding breadth_first fetch_frontier traverse
  traverse_frontier_batched store collection opts =
      if store.can_traverse collection
      then store.traverse_graph collection opts
      else elim store.list_where_in [
        | none ↦ traverse store collection opts
        | some where_in ↦
            breadth_first (fetch_frontier where_in collection opts) opts.depth opts.start
      ]
