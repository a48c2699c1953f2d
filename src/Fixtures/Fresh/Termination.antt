-- ===== src/Fixtures/Fresh/Termination.antt =====
-- Materialization ends, whatever the materializers ask for (packages/fixtures/src/loader.ts).
use mirk.Common.{ℕ, ◌≡◌, refl, Option, none, some, [], arith}
use mirk.Common.Result.{Result, ok}
use mirk.Text.{Str}
use mirk.Js.{Number, Js}
use mirk.Fixtures.Shape.{LoadError, Loader}
use mirk.Fixtures.Sources.{Caches}
use mirk.Fixtures.Registry.{Options, create_fixture_loader}
use mirk.Fixtures.Calls.{materialize_internal}
use mirk.Fixtures.Fresh.Materializers.{Leaves}
use mirk.Common.{◌<◌, length}
use mirk.Fixtures.Fresh.Ends.{materialize_internal-ends}
use mirk.Fixtures.Fresh.Known.{held_refs}
use mirk.Fixtures.Fresh.Held.{load_fresh-held_refs}
use mirk.Fixtures.Fresh.Steps.{Reach, NulFree, apart_of, Reach-IsSound}

module _ {N : Type 0} ⦃number : Number N⦄ where
  -- For a loader that createFixtureLoader gives, whose source ids and whose entries' paths and
  -- locators have no NUL, and whose sources answer the same throughout: after any sequence of
  -- calls of loadRaw, list, resolveRef, materialize and invalidate, and with more fuel than the
  -- files hold references, materialize ends with a value or an error, whatever the materializers
  -- ask for and whether or not they catch the errors that they are answered.
  pub materialize_internal-held_refs :
      (index : ℕ → N) (json_parse : Str → Option (Js N))
      (structured_clone : Js N → Result LoadError (Js N)) (opts : Options N) (loader : Loader N)
      → create_fixture_loader index json_parse structured_clone opts ≡ ok loader
      → NulFree loader.layers
      → {caches : Caches N} → Reach loader caches
      → (ref : Str) (fuel : ℕ) → length (held_refs loader) < fuel
      → (r : Result LoadError (Js N)) × (caches' : Caches N) × (materialize_internal fuel loader []
            ref caches
          ≡ some (r, caches'))
  materialize_internal-held_refs index json_parse structured_clone opts loader created free {caches}
        reach ref fuel enough =
      let apart = apart_of index json_parse structured_clone opts loader created free in
      let ends =
        materialize_internal-ends loader apart (held_refs loader)
          (load_fresh-held_refs loader apart) fuel [] ref caches (omega arith)
          (record { once = tt; known_ref = λ k m. absurd m }) (Reach-IsSound loader apart reach) in
      answered (materialize_internal fuel loader [] ref caches) ends
    where
      answered :
          (o : Option (Result LoadError (Js N) × Caches N))
          → Leaves loader (apart_of index json_parse structured_clone opts loader created free) ⊥ o
          → (r : Result LoadError (Js N)) × (caches' : Caches N) × (o ≡ some (r, caches'))
      answered none h = absurd h
      answered (some (r, caches')) h = (r, caches', refl)
