-- ===== src/Fixtures/Fresh/Ends.antt =====
-- Materialization ends: a reference that is being materialized is not materialized again below
-- itself (packages/fixtures/src/loader.ts).
use mirk.Common.{
  ℕ, zero, suc, ◌≡◌, sym, subst, false, List, [], ◌∷◌, ◌++◌, arith, Member, inl, inr, Bool-cases,
  Option-cases,
}
use mirk.Common.Result.{Result, ok, err}
use mirk.Text.{Str}
use mirk.Map
use mirk.Map.{Map}
use mirk.Js.{Number}
use mirk.Graph.{includes}
use mirk.Fixtures.Shape.{LoadError, Loaded, Loader}
use mirk.Fixtures.Sources.{Caches, no_caches}
use mirk.Fixtures.Loading.{
  load_parsed, load_fresh, parse_or_throw, load_raw_internal, load_raw, load, keep_loaded,
  combine_layers,
}
use mirk.Fixtures.Candidates.{AreApart}
use mirk.Fixtures.Fresh.{IsSound}
use mirk.Fixtures.Calls.{Bounded, materialize_loaded, materialize_internal}
use mirk.Fixtures.Fresh.Calls.{load_raw_lem}
use mirk.Fixtures.Loading
use mirk.Fixtures.Fresh.Materializers.{Leaves, keep_material-Leaves, materialize_loaded-Leaves}
use mirk.Graph.Distinct.{NoRepeat, NoRepeat-append_last, NoRepeat-length}
use mirk.Common.{◌+◌, ◌<◌, length, length-append, Member-append_last}

module _ {N : Type 0} ⦃number : Number N⦄ (loader : Loader N) (apart : AreApart loader.layers)
    (known : List Str)
    (loads : (ref : Str) (l : Loaded N)
      → (load_fresh loader ref [] no_caches).0 ≡ ok l
      → Member ref known) where
  -- The references that are being materialized.
  pub record IsStack (stack : List Str) : Type 0 where
    pub once : NoRepeat stack
    pub known_ref : (ref : Str) → Member ref stack → Member ref known

  push-IsStack :
      (stack : List Str) (ref : Str)
      → includes ref stack ≡ false
      → Member ref known
      → IsStack stack
      → IsStack (stack ++ ref ∷ [])
  push-IsStack stack ref new m h = record {
    once = NoRepeat-append_last ref stack new h.once;
    known_ref = λ k mk. elim ((Member-append_last k ref stack).0 mk) [
      | inr e ↦ subst (λ (x : Str). Member x known) (sym e) m
      | inl mk' ↦ h.known_ref k mk'
    ];
  }

  loaded-Leaves :
      (again : Str → Bounded N) (ref : Str) (p : Result LoadError (Loaded N) × Caches N)
      → p.0 ≡ (load_fresh loader ref [] no_caches).0
      → IsSound loader p.1
      → (Member ref known
          → (k : Str) (c : Caches N) → IsSound loader c
          → Leaves loader apart ⊥ (again k c))
      → Leaves loader apart ⊥ (materialize_loaded loader again p)
  loaded-Leaves again ref (err e, caches) same h ha = unfold materialize_loaded in h
  loaded-Leaves again ref (ok l, caches) same h ha =
      materialize_loaded-Leaves loader apart ⊥ again (ha (loads ref l (sym same))) (ok l, caches) h

  pub materialize_internal-ends :
      (fuel : ℕ) (stack : List Str) (ref : Str) (caches : Caches N)
      → length known < fuel + length stack
      → IsStack stack
      → IsSound loader caches
      → Leaves loader apart ⊥ (materialize_internal fuel loader stack ref caches)
  unfolding materialize_internal
  materialize_internal-ends zero stack ref caches enough st h =
      let fit = NoRepeat-length stack known st.once st.known_ref in omega arith
  materialize_internal-ends (suc f) stack ref caches enough st h =
      let (same, sound) = load_raw_lem loader apart ref caches h in
      elim (Option-cases (Map.get ref caches.material)) [
        | inr (v, e) ↦ rw (e, materialize_internal) h
        | inl e ↦ elim (Bool-cases (includes ref stack)) [
          | inl cycle ↦ rw (e, materialize_internal) (rw cycle h)
          | inr new ↦
              rw (e, materialize_internal)
                (rw new (
                  keep_material-Leaves loader apart ⊥ ref _ (
                    loaded-Leaves _ ref (Loading.load_raw loader ref caches) same sound (λ m k c hc.
                      materialize_internal-ends f (stack ++ ref ∷ []) k c
                        (omega (arith, length-append stack (ref ∷ [])))
                        (push-IsStack stack ref new m st) hc))))
        ]
      ]
