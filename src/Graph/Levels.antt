-- ===== src/Graph/Levels.antt =====
-- The search level by level, whatever gives the edges: after n hops the visited nodes are those
-- within n links of the start (packages/store/src/graph.ts).
use mirk.Common.{
  Member, ℕ, zero, suc, ◌+◌, ◌≡◌, ◌≤◌, ◌≢◌, ◌↔◌, refl, subst, ap, sym, ◌∙◌, true, ◌||◌, ◌&&◌, not,
  List, [], ◌∷◌, arith, ◌⊎◌, inl, inr, Bool-cases,
}
use mirk.Text.{Str, str_eq}
use mirk.Text.Units.{str_eq_iff, str_eq_refl}
use mirk.Graph.{Edge, Search, includes, begin, visit_level, run_hops}
use mirk.Graph.Distinct.{NoRepeat}
use mirk.Graph.Frontier.{visit_level-IsCollected}
use mirk.Graph.Sets.{includes_iff, leads, level_leads, visit_level-Added}

-- A node that at most `n` links lead to.
pub data Within (Links : Str → Str → Type 0) (start : Str) : ℕ → Str → Type 0 where
  here : (n : ℕ) → Within Links start n start
  step : {n : ℕ} {u v : Str} → Within Links start n u → Links u v → Within Links start (suc n) v

-- What a hop can start from: nodes that links lead to, each once.
pub record IsFrontier (Links : Str → Str → Type 0) (start : Str) (us : List Str) : Type 0 where
  pub once : NoRepeat us
  pub led : (u : Str) → Member u us → (n : ℕ) × Within Links start n u

module _ {Links : Str → Str → Type 0} {start : Str} where
  Within-mono : (m : ℕ) {n : ℕ} {v : Str} → n ≤ m → Within Links start n v → Within Links start m v
  Within-mono m h (here n) = here m
  Within-mono zero h (step w l) = absurd (omega arith)
  Within-mono (suc m) h (step w l) = step (Within-mono m (omega arith) w) l

  Within-zero : {n : ℕ} {v : Str} → n ≡ 0 → Within Links start n v → v ≡ start
  Within-zero e (here n) = refl
  Within-zero e (step w l) = absurd (omega arith)

  Within-cases :
      {m : ℕ} {v : Str} (n : ℕ)
      → m ≡ suc n
      → Within Links start m v
      → (v ≡ start) ⊎ ((u : Str) × Within Links start n u × Links u v)
  Within-cases n e (here m) = inl refl
  Within-cases n e (step {n = k} {u = u} w l) =
      let p : k ≡ n = omega arith in inr (u, subst (λ i. Within Links start i u) p w, l)

module _ {N : Type 0} where
  level_leads-true :
      (fetched : Str → List (Edge N)) (us : List Str) (v : Str)
      → level_leads fetched us v ≡ true
      → (u : Str) × Member u us × (leads u (fetched u) v ≡ true)
  level_leads-true fetched [] v h = cc
  level_leads-true fetched (u ∷ us) v h = elim (Bool-cases (leads u (fetched u) v)) [
    | inl e ↦ (u, inl refl, e)
    | inr e ↦ let (w, m, l) = level_leads-true fetched us v (ground arith) in (w, inr m, l)
  ]

  level_leads-of :
      (fetched : Str → List (Edge N)) (us : List Str) (u v : Str)
      → Member u us
      → leads u (fetched u) v ≡ true
      → level_leads fetched us v ≡ true
  level_leads-of fetched [] u v m l = absurd m
  level_leads-of fetched (w ∷ us) u v (inl e) l = ground arith
  level_leads-of fetched (w ∷ us) u v (inr m) l = ground (arith, level_leads-of fetched us u v m l)

  module _ (Links : Str → Str → Type 0) (start : Str) (fetch : List Str → Str → List (Edge N))
      (fetches : (us : List Str) (u v : Str)
        → IsFrontier Links start us
        → Member u us
        → (leads u (fetch us u) v ≡ true) ↔ Links u v) where
    record Inv (n : ℕ) (us : List Str) (s : Search N) : Type 0 where
      sound : (v : Str) → includes v s.visited ≡ true → Within Links start n v
      full : (v : Str) → Within Links start n v → includes v s.visited ≡ true
      closed :
          (u v : Str)
          → includes u s.visited ≡ true
          → Links u v
          → (includes v s.visited ≡ true) ⊎ Member u us
      queued : (u : Str) → Member u us → includes u s.visited ≡ true
      once : NoRepeat us
      met : (v : Str) → includes v s.reached ≡ (includes v s.visited && not (str_eq start v))

    Inv-begin : Inv zero (start ∷ []) (begin start)
    unfolding begin includes
    Inv-begin = record {
      sound = λ v h. subst (Within Links start 0) ((str_eq_iff start v).0 (ground arith)) (here 0);
      full = λ v w. let e = Within-zero refl w in rw (e, str_eq_refl start) refl;
      closed = λ u v h l. inr (inl (ground (arith, str_eq_iff start u)));
      queued = λ u m. ground (arith, str_eq_iff start u);
      once = (refl, tt);
      met = λ v. ground arith;
    }

    Inv-IsFrontier : (n : ℕ) (us : List Str) (s : Search N) → Inv n us s → IsFrontier Links start us
    Inv-IsFrontier n us s inv = record {
      once = inv.once;
      led = λ u m. (n, inv.sound u (inv.queued u m));
    }

    -- One more hop.
    Inv-level :
        (n : ℕ) (us : List Str) (s : Search N)
        → Inv n us s
        → Inv
            (suc n)
            (visit_level (fetch us) us (record s { next = [] })).next
            (visit_level (fetch us) us (record s { next = [] }))
    unfolding includes
    Inv-level n us s inv =
        let s' = visit_level (fetch us) us (record s { next = [] }) in
        let added = visit_level-Added (fetch us) us (record s { next = [] }) in
        let collected =
          visit_level-IsCollected (fetch us) us (record s { next = [] })
            (record { once = tt; visited = λ v e. absurd (ground (arith, e)) }) in
        let kept = λ (v : Str) (old : includes v s.visited ≡ true).
          added.visited v ∙ ap (λ b. b || level_leads (fetch us) us v) old in
        let led : (u v : Str) → Member u us → Links u v → includes v s'.visited ≡ true = λ u v m l.
          let e =
            level_leads-of (fetch us) us u v m
              ((fetches us u v (Inv-IsFrontier n us s inv) m).1 l) in
          ground (arith, added.visited v) in
        record {
          sound = λ v h. elim (Bool-cases (includes v s.visited)) [
            | inl old ↦ Within-mono (suc n) (omega arith) (inv.sound v old)
            | inr new ↦
                let (u, m, l) =
                  level_leads-true (fetch us) us v (ground (arith, added.visited v)) in
                step (inv.sound u (inv.queued u m))
                  ((fetches us u v (Inv-IsFrontier n us s inv) m).0 l)
          ];
          full = λ v w. elim (Within-cases n refl w) [
            | inl e ↦ kept v (rw e (inv.full start (here n)))
            | inr (u, w', l) ↦ elim (inv.closed u v (inv.full u w') l) [
              | inl old ↦ kept v old
              | inr m ↦ led u v m l
            ]
          ];
          closed = λ u v h l. elim (Bool-cases (includes u s.visited)) [
            | inl old ↦ elim (inv.closed u v old l) [
              | inl seen ↦ inl (kept v seen)
              | inr m ↦ inl (led u v m l)
            ]
            | inr new ↦
                inr ((includes_iff u s'.next).0 (ground (arith, added.visited u, added.next u)))
          ];
          queued = λ u m. ground (arith, added.visited u, added.next u, includes_iff u s'.next);
          once = collected.once;
          met = λ v. ground (
            arith,
            added.reached v,
            added.visited v,
            inv.met v,
            inv.full start (here n),
            str_eq_iff start v,
          );
        }

    -- At an empty frontier no further link leads to a new node.
    settled :
        (n m : ℕ) (s : Search N) (v : Str)
        → Inv n [] s
        → Within Links start m v
        → includes v s.visited ≡ true
    settled n m s v inv (here k) = inv.full start (here n)
    settled n m s v inv (step {n = k} {u = u} w l) =
        elim (inv.closed u v (settled n k s u inv w) l) [
          | inl seen ↦ seen
          | inr none_left ↦ absurd none_left
        ]

    -- The reached nodes are the visited ones but for the start.
    met_iff :
        (n m : ℕ) (us : List Str) (s : Search N) (v : Str)
        → Inv n us s
        → n ≤ m
        → (Within Links start m v → includes v s.visited ≡ true)
        → (includes v s.reached ≡ true) ↔ ((v ≢ start) × Within Links start m v)
    met_iff n m us s v inv h full = (
      λ r. (
        λ e.
            let same : str_eq start v ≡ true = (str_eq_iff start v).1 (sym e) in
            ground (arith, inv.met v),
        Within-mono m h (inv.sound v (ground (arith, inv.met v))),
      ),
      λ (ne, w). elim (Bool-cases (str_eq start v)) [
        | inl same ↦ absurd (ne (sym ((str_eq_iff start v).0 same)))
        | inr other ↦ let seen = full w in ground (arith, inv.met v)
      ],
    )

    run_hops-reached :
        (left n m : ℕ) (us : List Str) (s : Search N)
        → Inv n us s
        → m ≡ left + n
        → (v : Str)
        → (includes v (run_hops fetch left us s).reached ≡ true)
          ↔ ((v ≢ start) × Within Links start m v)
    unfolding run_hops
    run_hops-reached zero n m us s inv e v =
        met_iff n m us s v inv (omega arith)
          (λ w. inv.full v (let p : m ≡ n = omega arith in subst (λ i. Within Links start i v) p w))
    run_hops-reached (suc left) n m [] s inv e v =
        met_iff n m [] s v inv (omega arith) (settled n m s v inv)
    run_hops-reached (suc left) n m (u ∷ us) s inv e v =
        let s' = visit_level (fetch (u ∷ us)) (u ∷ us) (record s { next = [] }) in
        run_hops-reached left (suc n) m s'.next s' (Inv-level n (u ∷ us) s inv) (omega arith) v

    -- After n hops the reached nodes are those within n links of the start, but for the start.
    pub search-reached :
        (n : ℕ) (v : Str)
        → (includes v (run_hops fetch n (start ∷ []) (begin start)).reached ≡ true)
          ↔ ((v ≢ start) × Within Links start n v)
    search-reached n v =
        run_hops-reached n zero n (start ∷ []) (begin start) Inv-begin (omega arith) v
