-- ===== src/Graph/Frontier.antt =====
-- The level that a search collects names no node twice (packages/store/src/graph.ts).
use mirk.Common.{◌≡◌, true, false, List, [], ◌∷◌, arith, inl, inr, Bool-cases}
use mirk.Text.{Str}
use mirk.Graph.{Edge, Search, includes, far, note_edge, note_node, visit_edges, visit_level}
use mirk.Graph.Sets.{includes-append_last}
use mirk.Graph.Distinct.{NoRepeat, NoRepeat-append_last}

module _ {N : Type 0} where
  -- What is collected was visited, and is there once.
  pub record IsCollected (s : Search N) : Type 0 where
    pub once : NoRepeat s.next
    pub visited : (v : Str) → includes v s.next ≡ true → includes v s.visited ≡ true

  note_edge-IsCollected : (e : Edge N) (s : Search N) → IsCollected s → IsCollected (note_edge e s)
  unfolding note_edge
  note_edge-IsCollected e s h = elim (Bool-cases (includes e.id s.seen_ids)) [
    | inl old ↦ rw old h
    | inr new ↦ rw new (record { once = h.once; visited = h.visited })
  ]

  note_node-IsCollected : (u : Str) (s : Search N) → IsCollected s → IsCollected (note_node u s)
  unfolding note_node includes
  note_node-IsCollected u s h = elim (Bool-cases (includes u s.visited)) [
    | inl old ↦ rw old h
    | inr new ↦
        let fresh : includes u s.next ≡ false = ground (arith, h.visited u) in
        rw new (record {
          once = NoRepeat-append_last u s.next fresh h.once;
          visited = λ v e. ground (arith, includes-append_last v u s.next, h.visited v);
        })
  ]

  visit_edges-IsCollected :
      (node : Str) (es : List (Edge N)) (s : Search N)
      → IsCollected s
      → IsCollected (visit_edges node es s)
  unfolding visit_edges
  visit_edges-IsCollected node [] s h = h
  visit_edges-IsCollected node (e ∷ es) s h =
      visit_edges-IsCollected node es (note_node (far node e) (note_edge e s))
        (note_node-IsCollected (far node e) (note_edge e s) (note_edge-IsCollected e s h))

  pub visit_level-IsCollected :
      (fetched : Str → List (Edge N)) (us : List Str) (s : Search N)
      → IsCollected s
      → IsCollected (visit_level fetched us s)
  unfolding visit_level
  visit_level-IsCollected fetched [] s h = h
  visit_level-IsCollected fetched (u ∷ us) s h =
      visit_level-IsCollected fetched us (visit_edges u (fetched u) s)
        (visit_edges-IsCollected u (fetched u) s h)
