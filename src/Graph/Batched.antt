-- ===== src/Graph/Batched.antt =====
-- The traversal that asks for one level at a time, and the traversal that loads every edge
-- (packages/store/src/graph.ts).
use mirk.Common.{
  Member-append, Member, ◌≡◌, ◌≤◌, ◌<◌, ◌+◌, ◌*◌, length, filter, ◌↔◌, ℕ, refl, ap, sym, subst,
  Bool, true, false, Option, none, some, List, [], ◌∷◌, ◌++◌, arith, ◌⊎◌, inl, inr, Bool-cases,
}
use mirk.Text.{Str, ascii, str_eq}
use mirk.Text.Units.{str_eq_iff}
use mirk.Filter.{StoreFilter}
use mirk.Graph.{
  Edge, Direction, outward, inward, both, hops_of, EdgeStore, TraversalOptions, or_outward,
  includes, is_adjacent, filter_by_types, dedup_from, dedup_by_id, frontier_edges,
  without_where_field, fetch_frontier, traverse, traverse_frontier_batched,
}
use mirk.Graph.Distinct.{NoRepeat-length}
use mirk.Graph.Levels.{Within, here, step, IsFrontier}
use mirk.Graph.Reach.{breadth_first-reached, traverse-reached}
use mirk.Graph.Adjacency.{Links, candidates, leads-Links, Member-filter}

module _ {N : Type 0} where
  -- The edges with equal ids are equal.
  abbrev pub HasUniqueIds : List (Edge N) → Type 0
  HasUniqueIds es = (a b : Edge N) → Member a es → Member b es → a.id ≡ b.id → a ≡ b

  -- Under the filter, the query of a field by IN with at most so many values answers with the
  -- listed edges whose field is one of them.
  abbrev pub AnswersIn :
      EdgeStore N
      → Str
      → Option (StoreFilter N)
      → ℕ
      → (Str → Str → List Str → Option (StoreFilter N) → List (Edge N))
      → Str
      → (Edge N → Str)
      → Type 0
  AnswersIn store c f most where_in k end_of =
      (us : List Str) (e : Edge N)
      → length us ≤ most
      → Member e (where_in c k us f) ↔ (Member e (store.list c f) × Member (end_of e) us)

  -- Both ends of every edge.
  ends : List (Edge N) → List Str
  ends [] = []
  ends (e ∷ es) = e.from ∷ e.to ∷ ends es

  length-ends : (es : List (Edge N)) → length (ends es) ≡ 2 * length es
  unfolding ends
  length-ends [] = refl
  length-ends (e ∷ es) = omega (arith, length-ends es)

  Member-ends :
      (e : Edge N) (es : List (Edge N))
      → Member e es
      → Member e.from (ends es) × Member e.to (ends es)
  unfolding ends
  Member-ends e [] m = absurd m
  Member-ends e (x ∷ es) (inl p) = (inl (ap (λ a. a.from) p), inr (inl (ap (λ a. a.to) p)))
  Member-ends e (x ∷ es) (inr m) = let (f, t) = Member-ends e es m in (inr (inr f), inr (inr t))

  Links-ends :
      (d : Direction) (es : List (Edge N)) (u v : Str) → Links d es u v → Member v (ends es)
  Links-ends outward es u v (e, m, j) = subst (λ w. Member w (ends es)) j.1 (Member-ends e es m).1
  Links-ends inward es u v (e, m, j) = subst (λ w. Member w (ends es)) j.1 (Member-ends e es m).0
  Links-ends both es u v (e, m, inl j) = subst (λ w. Member w (ends es)) j.1 (Member-ends e es m).1
  Links-ends both es u v (e, m, inr j) = subst (λ w. Member w (ends es)) j.1 (Member-ends e es m).0

  Within-ends :
      (d : Direction) (es : List (Edge N)) (start v : Str) (n : ℕ)
      → Within (Links d es) start n v
      → Member v (start ∷ ends es)
  Within-ends d es start v n (here m) = inl refl
  Within-ends d es start v n (step {u = u} w l) = inr (Links-ends d es u v l)

  -- A frontier has the start at most and the ends of the edges.
  length-IsFrontier :
      (d : Direction) (es : List (Edge N)) (start : Str) (us : List Str)
      → IsFrontier (Links d es) start us
      → length us ≤ 2 * length es + 1
  length-IsFrontier d es start us f =
      let few : length us ≤ length (start ∷ ends es) =
        NoRepeat-length us (start ∷ ends es) f.once
          (λ u m. let (n, w) = f.led u m in Within-ends d es start u n w) in
      omega (arith, length-ends es, few)

  Member-dedup_from :
      (all es : List (Edge N)) (seen : List Str) (e : Edge N)
      → HasUniqueIds all
      → ((a : Edge N) → Member a es → Member a all)
      → Member e (dedup_from seen es) ↔ (Member e es × (includes e.id seen ≡ false))
  unfolding dedup_from includes
  Member-dedup_from all [] seen e unique sub = ground arith
  Member-dedup_from all (x ∷ es) seen e unique sub =
      let same : Member e es → x.id ≡ e.id → e ≡ x =
        λ m p. unique e x (sub e (inr m)) (sub x (inl refl)) (sym p) in
      let kept : e ≡ x → includes e.id seen ≡ includes x.id seen = ap (λ a. includes a.id seen) in
      elim (Bool-cases (includes x.id seen)) [
        | inl old ↦
            ground
              (arith, same, kept, Member-dedup_from all es seen e unique (λ a m. sub a (inr m)))
        | inr new ↦ ground (
          arith,
          same,
          kept,
          str_eq_iff x.id e.id,
          Member-dedup_from all es (x.id ∷ seen) e unique (λ a m. sub a (inr m)),
        )
      ]

  -- An end of the edge that the direction follows is in the frontier.
  abbrev Meets : Direction → List Str → Edge N → Type 0
  Meets outward us e = Member e.from us
  Meets inward us e = Member e.to us
  Meets both us e = Member e.from us ⊎ Member e.to us

  is_adjacent-Meets :
      (d : Direction) (u : Str) (us : List Str) (e : Edge N)
      → Member u us
      → is_adjacent d u e ≡ true
      → Meets d us e
  unfolding is_adjacent
  is_adjacent-Meets outward u us e m h =
      subst (λ w. Member w us) (sym ((str_eq_iff e.from u).0 h)) m
  is_adjacent-Meets inward u us e m h = subst (λ w. Member w us) (sym ((str_eq_iff e.to u).0 h)) m
  is_adjacent-Meets both u us e m h = elim (Bool-cases (str_eq e.from u)) [
    | inl p ↦ inl (subst (λ w. Member w us) (sym ((str_eq_iff e.from u).0 p)) m)
    | inr p ↦
        let q : str_eq e.to u ≡ true = ground arith in
        inr (subst (λ w. Member w us) (sym ((str_eq_iff e.to u).0 q)) m)
  ]

  abbrev of_types : Option (List Str) → Edge N → Bool
  of_types none e = true
  of_types (some []) e = true
  of_types (some (t ∷ ts)) e = includes e.kind (t ∷ ts)

  Member-filter_by_types :
      (types : Option (List Str)) (e : Edge N) (es : List (Edge N))
      → Member e (filter_by_types types es) ↔ (Member e es × (of_types types e ≡ true))
  unfolding filter_by_types
  Member-filter_by_types none e es = ground arith
  Member-filter_by_types (some []) e es = ground arith
  Member-filter_by_types (some (t ∷ ts)) e es = Member-filter (λ a. includes a.kind (t ∷ ts)) e es

  length-filter : (test : Edge N → Bool) (es : List (Edge N)) → length (filter test es) ≤ length es
  unfolding filter
  length-filter test [] = omega arith
  length-filter test (e ∷ es) = ground (arith, length-filter test es)

  length-filter_by_types :
      (types : Option (List Str)) (es : List (Edge N))
      → length (filter_by_types types es) ≤ length es
  unfolding filter_by_types
  length-filter_by_types none es = omega arith
  length-filter_by_types (some []) es = omega arith
  length-filter_by_types (some (t ∷ ts)) es = length-filter (λ a. includes a.kind (t ∷ ts)) es

  module _ (store : EdgeStore N) (c : Str) (opts : TraversalOptions N)
      (where_in : Str → Str → List Str → Option (StoreFilter N) → List (Edge N)) (most : ℕ)
      (by_from : AnswersIn store c opts.edge_filter most where_in (ascii "from") (λ e. e.from))
      (by_to : AnswersIn store c opts.edge_filter most where_in (ascii "to") (λ e. e.to))
      (few : 2 * length (store.list c opts.edge_filter) < most)
      (unique : HasUniqueIds (store.list c opts.edge_filter))
      (no_from : without_where_field opts.edge_filter (ascii "from") ≡ opts.edge_filter)
      (no_to : without_where_field opts.edge_filter (ascii "to") ≡ opts.edge_filter) where
    Member-frontier_edges :
        (d : Direction) (us : List Str) (e : Edge N)
        → length us ≤ most
        → Member e (frontier_edges where_in c us d opts.edge_filter)
          ↔ (Member e (store.list c opts.edge_filter) × Meets d us e)
    unfolding frontier_edges
    Member-frontier_edges outward us e h = rw no_from (by_from us e h)
    Member-frontier_edges inward us e h = rw no_to (by_to us e h)
    Member-frontier_edges both us e h =
        let f = opts.edge_filter in
        let out = where_in c (ascii "from") us f in
        let inc = where_in c (ascii "to") us f in
        let loaded : (a : Edge N) → Member a (out ++ inc) → Member a (store.list c f) = λ a m.
          elim ((Member-append a out inc).0 m) [
            | inl p ↦ ((by_from us a h).0 p).0
            | inr p ↦ ((by_to us a h).0 p).0
          ] in
        rw (no_from, no_to, dedup_by_id)
          (ground (
            arith,
            Member-dedup_from (store.list c f) (out ++ inc) [] e unique loaded,
            Member-append e out inc,
            by_from us e h,
            by_to us e h,
          ))

    Member-fetch_frontier :
        (us : List Str) (u : Str) (e : Edge N)
        → length us ≤ most
        → Member u us
        → Member e (fetch_frontier where_in c opts us u) ↔ (
            Member e (candidates store c opts)
            × (is_adjacent (or_outward opts.direction) u e ≡ true))
    unfolding fetch_frontier
    Member-fetch_frontier us u e h m =
        let d = or_outward opts.direction in
        let some_edges = frontier_edges where_in c us d opts.edge_filter in
        ground (
          arith,
          Member-filter (is_adjacent d u) e (filter_by_types opts.edge_types some_edges),
          Member-filter_by_types opts.edge_types e some_edges,
          Member-frontier_edges d us e h,
          Member-filter_by_types opts.edge_types e (store.list c opts.edge_filter),
          is_adjacent-Meets d u us e m,
        )

    -- traverseFrontierBatched reaches the nodes that traverse reaches, for a depth that allows a
    -- number of hops, if the store has no traversal of its own, its IN queries under the edge
    -- filter, of at most a certain number of values, answer exactly with the listed edges whose
    -- end is asked for, twice the listed edges are fewer than that number, no two listed edges
    -- share an id, and the edge filter asks for neither end.
    pub traverse_frontier_batched-reached :
        (n : ℕ) (v : Str)
        → store.can_traverse c ≡ false
        → store.list_where_in ≡ some where_in
        → opts.depth ≡ hops_of n
        → includes v (traverse_frontier_batched store c opts).nodes
          ≡ includes v (traverse store c opts).nodes
    unfolding traverse_frontier_batched
    traverse_frontier_batched-reached n v plain able deep =
        let edges = candidates store c opts in
        let d = or_outward opts.direction in
        let fewer : length edges ≤ length (store.list c opts.edge_filter) =
          length-filter_by_types opts.edge_types (store.list c opts.edge_filter) in
        let batched =
          breadth_first-reached (Links d edges) opts.start (fetch_frontier where_in c opts)
            (λ us u w f m.
              let short : length us ≤ most =
                omega (arith, length-IsFrontier d edges opts.start us f, fewer) in
              leads-Links d edges (fetch_frontier where_in c opts us u) u w
                (λ e. Member-fetch_frontier us u e short m))
            n v in
        let whole = traverse-reached store c opts n v plain deep in
        rw (plain, able, deep) (ground (arith, batched, whole))
