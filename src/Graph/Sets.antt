-- ===== src/Graph/Sets.antt =====
-- Sets of texts as lists, and what one level of the search adds to them
-- (packages/store/src/graph.ts).
use mirk.Common.{Member, ◌≡◌, ◌↔◌, Bool, true, false, ◌||◌, ◌&&◌, not, List, [], ◌∷◌, ◌++◌, arith}
use mirk.Text.{Str, str_eq}
use mirk.Text.Units.{str_eq_iff}
use mirk.Graph.{Edge, Search, includes, far, note_edge, note_node, visit_edges, visit_level}

pub includes_iff : (k : Str) (ss : List Str) → (includes k ss ≡ true) ↔ Member k ss
unfolding includes
includes_iff k [] = ground arith
includes_iff k (s ∷ ss) = ground (arith, str_eq_iff s k, includes_iff k ss)

pub includes-append_last :
    (k s : Str) (ss : List Str) → includes k (ss ++ s ∷ []) ≡ (includes k ss || str_eq s k)
unfolding includes
includes-append_last k s [] = ground arith
includes-append_last k s (t ∷ ss) = ground (arith, includes-append_last k s ss)

module _ {N : Type 0} where
  -- Whether one of the edges leads from the node to `v`.
  abbrev pub leads : Str → List (Edge N) → Str → Bool
  leads node [] v = false
  leads node (e ∷ es) v = str_eq (far node e) v || leads node es v

  abbrev pub level_leads : (Str → List (Edge N)) → List Str → Str → Bool
  level_leads fetched [] v = false
  level_leads fetched (u ∷ us) v = leads u (fetched u) v || level_leads fetched us v

  -- The sets after a search went on from `s` to `s'`, where `new` are the nodes that it was led to.
  pub record Added (new : Str → Bool) (s s' : Search N) : Type 0 where
    pub visited : (v : Str) → includes v s'.visited ≡ (includes v s.visited || new v)
    pub reached :
        (v : Str)
        → includes v s'.reached ≡ (includes v s.reached || (not (includes v s.visited) && new v))
    pub next :
        (v : Str)
        → includes v s'.next ≡ (includes v s.next || (not (includes v s.visited) && new v))

  note_edge-sets :
      (e : Edge N) (s : Search N)
      → ((note_edge e s).visited ≡ s.visited)
        × ((note_edge e s).reached ≡ s.reached)
        × ((note_edge e s).next ≡ s.next)
  unfolding note_edge
  note_edge-sets e s = ground arith

  note_node-Added : (u : Str) (s : Search N) → Added (λ v. str_eq u v) s (note_node u s)
  unfolding note_node includes
  note_node-Added u s = record {
    visited = λ v. ground (arith, str_eq_iff u v);
    reached = λ v. ground (arith, str_eq_iff u v, includes-append_last v u s.reached);
    next = λ v. ground (arith, str_eq_iff u v, includes-append_last v u s.next);
  }

  Added-trans :
      {f g : Str → Bool} {s t u : Search N}
      → Added f s t
      → Added g t u
      → Added (λ v. f v || g v) s u
  Added-trans a b = record {
    visited = λ v. ground (arith, a.visited v, b.visited v);
    reached = λ v. ground (arith, a.visited v, a.reached v, b.reached v);
    next = λ v. ground (arith, a.visited v, a.next v, b.next v);
  }

  Added-none : (s : Search N) → Added (λ v. false) s s
  Added-none s = record {
    visited = λ v. ground arith;
    reached = λ v. ground arith;
    next = λ v. ground arith;
  }

  note-Added :
      (u : Str) (e : Edge N) (s : Search N)
      → Added (λ v. str_eq u v) s (note_node u (note_edge e s))
  note-Added u e s =
      let (a, b, c) = note_edge-sets e s in
      let h = note_node-Added u (note_edge e s) in
      record {
        visited = λ v. ground (arith, h.visited v);
        reached = λ v. ground (arith, h.reached v);
        next = λ v. ground (arith, h.next v);
      }

  visit_edges-Added :
      (node : Str) (es : List (Edge N)) (s : Search N)
      → Added (leads node es) s (visit_edges node es s)
  unfolding visit_edges
  visit_edges-Added node [] s = Added-none s
  visit_edges-Added node (e ∷ es) s =
      Added-trans (note-Added (far node e) e s)
        (visit_edges-Added node es (note_node (far node e) (note_edge e s)))

  -- What one level adds.
  pub visit_level-Added :
      (fetched : Str → List (Edge N)) (us : List Str) (s : Search N)
      → Added (level_leads fetched us) s (visit_level fetched us s)
  unfolding visit_level
  visit_level-Added fetched [] s = Added-none s
  visit_level-Added fetched (u ∷ us) s =
      Added-trans (visit_edges-Added u (fetched u) s)
        (visit_level-Added fetched us (visit_edges u (fetched u) s))
