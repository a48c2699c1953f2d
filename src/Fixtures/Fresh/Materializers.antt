-- ===== src/Fixtures/Fresh/Materializers.antt =====
-- Materializers keep the caches of a loader sound (packages/fixtures/src/loader.ts).
use mirk.Common.{Option, none, some}
use mirk.Common.Result.{Result, ok, err}
use mirk.Text.{Str}
use mirk.Js.{Number, Js}
use mirk.Fixtures.Shape.{LoadError, Loaded, Loader}
use mirk.Fixtures.Sources.{Caches}
use mirk.Fixtures.Loading.{load}
use mirk.Fixtures.Candidates.{AreApart}
use mirk.Fixtures.Fresh.{IsSound}
use mirk.Fixtures.Shape.{Materializer, answer}
use mirk.Fixtures.Calls.{
  Bounded, run_materializer, keep_material, materializer_of, materialize_loaded,
}
use mirk.Fixtures.Fresh.Calls.{load-Agrees}

module _ {N : Type 0} ⦃number : Number N⦄ (loader : Loader N) (apart : AreApart loader.layers)
    (Out : Type 0) where
  -- Whatever a bounded call answers, it leaves sound caches; `Out` is what is known where its fuel runs out.
  abbrev pub Leaves : Option (Result LoadError (Js N) × Caches N) → Type 0
  Leaves none = Out
  Leaves (some (r, caches)) = IsSound loader caches

  run_materializer-Leaves :
      (again : Str → Bounded N)
      → ((ref : Str) (caches : Caches N) → IsSound loader caches → Leaves (again ref caches))
      → (m : Materializer N) (caches : Caches N) → IsSound loader caches
      → Leaves (run_materializer loader again m caches)
  unfolding run_materializer
  run_materializer-Leaves again ha (answer r) caches h = h
  run_materializer-Leaves again ha (Materializer.load_raw ref next) caches h =
      run_materializer-Leaves again ha (next (load loader ref caches).0) (load loader ref caches).1
        ((load-Agrees loader apart ref).at caches h).1
  run_materializer-Leaves again ha (Materializer.materialize ref next) caches h =
      after (again ref caches) (ha ref caches h)
        (λ r c hc. run_materializer-Leaves again ha (next r) c hc)
    where
      after :
          (o : Option (Result LoadError (Js N) × Caches N))
          → Leaves o
          → ((r : Result LoadError (Js N)) (c : Caches N)
              → IsSound loader c
              → Leaves (run_materializer loader again (next r) c))
          → Leaves (elim o [ none ↦ none | some (r, c) ↦ run_materializer loader again (next r) c ])
      after none l go = l
      after (some (r, c)) l go = go r c l

  pub keep_material-Leaves :
      (ref : Str) (o : Option (Result LoadError (Js N) × Caches N))
      → Leaves o
      → Leaves (keep_material ref o)
  unfolding keep_material
  keep_material-Leaves ref none h = h
  keep_material-Leaves ref (some (err e, caches)) h = h
  keep_material-Leaves ref (some (ok v, caches)) h = record { parsed = h.parsed; raw = h.raw }

  pub materialize_loaded-Leaves :
      (again : Str → Bounded N)
      → ((ref : Str) (caches : Caches N) → IsSound loader caches → Leaves (again ref caches))
      → (p : Result LoadError (Loaded N) × Caches N) → IsSound loader p.1
      → Leaves (materialize_loaded loader again p)
  unfolding materialize_loaded
  materialize_loaded-Leaves again ha (err e, caches) h = h
  materialize_loaded-Leaves again ha (ok l, caches) h =
      run_materializer-Leaves again ha (materializer_of loader l) caches h
