-- ===== src/Fixtures/Fresh/Steps.antt =====
-- Any sequence of calls of a loader leaves caches that answer as a new loader does
-- (packages/fixtures/src/loader.ts).
use mirk.Common.{
  ℕ, zero, suc, ◌≡◌, subst, Option, none, some, List, [], ◌∷◌, ◌++◌, arith, Member, inl, inr,
  Bool-cases, Option-cases,
}
use mirk.Common.Result.{Result, ok}
use mirk.Text.{Str}
use mirk.Map
use mirk.Map.{Map}
use mirk.Map.Laws.{get-remove}
use mirk.Js.{Number, Js}
use mirk.Graph.{includes}
use mirk.Fixtures.Shape.{LoadError, Entry, Layer, Loader}
use mirk.Fixtures.Sources.{Caches, no_caches}
use mirk.Fixtures.Loading.{
  load_parsed, load_fresh, parse_or_throw, load_raw_internal, load_raw, load, keep_loaded,
  combine_layers,
}
use mirk.Fixtures.Keys.{NoNul}
use mirk.Fixtures.Calls
use mirk.Fixtures.Calls.{
  list_types, listed_types, add_refs, invalidate, load_typed, bare_ref, resolve_inline, resolve_ref,
  or_type,
}
use mirk.Fixtures.Candidates.{AreApart}
use mirk.Fixtures.Fresh.{IsSound, no_caches-IsSound}
use mirk.Fixtures.Registry.{Options, create_fixture_loader, assert_distinct_source_ids}
use mirk.Fixtures.Keys.{assert_distinct_source_ids-AreDistinct}
use mirk.Fixtures.Calls.{
  Bounded, run_materializer, keep_material, materializer_of, materialize_loaded,
  materialize_internal,
}
use mirk.Fixtures.Fresh.Calls.{load_raw_lem, load_raw-Agrees, list-Agrees, resolve_ref-Agrees}
use mirk.Fixtures.Loading
use mirk.Fixtures.Fresh.Materializers.{Leaves, keep_material-Leaves, materialize_loaded-Leaves}

-- A step of a loader's caches: any call, a `materialize` that ends with the fuel given.
module _ {N : Type 0} ⦃number : Number N⦄ (loader : Loader N) where
  pub data Step (caches : Caches N) : Caches N → Type 0 where
    load_step :
        (ref : Str) {caches' : Caches N}
        → caches' ≡ (Loading.load_raw loader ref caches).1
        → Step caches caches'
    list_step :
        (type_name : Option Str) {caches' : Caches N}
        → caches' ≡ (Calls.list loader type_name caches).1
        → Step caches caches'
    resolve_step :
        (expected : Option Str) (v : Js N) {caches' : Caches N}
        → caches' ≡ (resolve_ref loader expected v caches).1
        → Step caches caches'
    invalidate_step :
        (ref : Option Str) {caches' : Caches N}
        → caches' ≡ invalidate ref caches
        → Step caches caches'
    materialize_step :
        (fuel : ℕ) (ref : Str) (r : Result LoadError (Js N)) {caches' : Caches N}
        → materialize_internal fuel loader [] ref caches ≡ some (r, caches')
        → Step caches caches'

  -- The caches that calls reach from those of a new loader.
  pub data Reach : Caches N → Type 0 where
    start : Reach no_caches
    step : {caches caches' : Caches N} → Reach caches → Step caches caches' → Reach caches'

module _ {N : Type 0} ⦃number : Number N⦄ (loader : Loader N) (apart : AreApart loader.layers) where
  invalidate-IsSound :
      (ref : Option Str) (caches : Caches N)
      → IsSound loader caches
      → IsSound loader (invalidate ref caches)
  unfolding invalidate
  invalidate-IsSound none caches h = no_caches-IsSound loader
  invalidate-IsSound (some []) caches h = no_caches-IsSound loader
  invalidate-IsSound (some (u ∷ ref)) caches h = record {
    parsed = (no_caches-IsSound loader).parsed;
    raw = λ k l got. ground (arith, get-remove (u ∷ ref) k caches.raw, h.raw k l);
  }

  materialize_internal-Leaves :
      (fuel : ℕ) (stack : List Str) (ref : Str) (caches : Caches N)
      → IsSound loader caches
      → Leaves loader apart Unit (materialize_internal fuel loader stack ref caches)
  unfolding materialize_internal
  materialize_internal-Leaves zero stack ref caches h = tt
  materialize_internal-Leaves (suc f) stack ref caches h =
      elim (Option-cases (Map.get ref caches.material)) [
        | inr (v, e) ↦ rw (e, materialize_internal) h
        | inl e ↦ elim (Bool-cases (includes ref stack)) [
          | inl cycle ↦ rw (e, materialize_internal) (rw cycle h)
          | inr new ↦
              rw (e, materialize_internal)
                (rw new (
                  keep_material-Leaves loader apart Unit ref _ (
                    materialize_loaded-Leaves loader apart Unit _
                      (materialize_internal-Leaves f (stack ++ ref ∷ []))
                      (Loading.load_raw loader ref caches)
                      (load_raw_lem loader apart ref caches h).1)))
        ]
      ]

  Step-IsSound :
      {caches caches' : Caches N}
      → Step loader caches caches'
      → IsSound loader caches
      → IsSound loader caches'
  Step-IsSound (load_step ref e) h = rw e (load_raw_lem loader apart ref _ h).1
  Step-IsSound (list_step t e) h = rw e ((list-Agrees loader apart t).at _ h).1
  Step-IsSound (resolve_step t v e) h = rw e ((resolve_ref-Agrees loader apart t v).at _ h).1
  Step-IsSound (invalidate_step ref e) h = rw e (invalidate-IsSound ref _ h)
  Step-IsSound (materialize_step fuel ref r e) h =
      subst (Leaves loader apart Unit) e (materialize_internal-Leaves fuel [] ref _ h)

  pub Reach-IsSound : {caches : Caches N} → Reach loader caches → IsSound loader caches
  Reach-IsSound start = no_caches-IsSound loader
  Reach-IsSound (step r st) = Step-IsSound st (Reach-IsSound r)

-- Neither the ids of the sources nor the paths and locators of their entries have a NUL.
pub record NulFree {N : Type 0} (layers : List (Layer N)) : Type 0 where
  pub id : (a : Layer N) → Member a layers → NoNul a.source.id
  pub entry :
      (a : Layer N) (es : List Entry) (e : Entry)
      → Member a layers
      → a.source.list ≡ some es
      → Member e es
      → NoNul e.locator × NoNul e.relative_path

module _ {N : Type 0} ⦃number : Number N⦄ where
  create_fixture_loader-distinct :
      (index : ℕ → N) (json_parse : Str → Option (Js N))
      (structured_clone : Js N → Result LoadError (Js N)) (opts : Options N) (loader : Loader N)
      → create_fixture_loader index json_parse structured_clone opts ≡ ok loader
      → assert_distinct_source_ids [] loader.layers ≡ ok tt
  unfolding create_fixture_loader
  create_fixture_loader-distinct index json_parse structured_clone opts loader h = ground arith

  pub apart_of :
      (index : ℕ → N) (json_parse : Str → Option (Js N))
      (structured_clone : Js N → Result LoadError (Js N)) (opts : Options N) (loader : Loader N)
      → create_fixture_loader index json_parse structured_clone opts ≡ ok loader
      → NulFree loader.layers
      → AreApart loader.layers
  apart_of index json_parse structured_clone opts loader created free = record {
    distinct =
        assert_distinct_source_ids-AreDistinct loader.layers
          (create_fixture_loader-distinct index json_parse structured_clone opts loader created);
    id = free.id;
    entry = free.entry;
  }

  -- For a loader that createFixtureLoader gives, whose source ids and whose entries' paths and
  -- locators have no NUL, and whose sources answer the same throughout: after any sequence of
  -- calls of loadRaw, list, resolveRef, materialize and invalidate, the calls loadRaw, list and
  -- resolveRef answer what they answer on a new loader.
  pub Reach-no_caches :
      (index : ℕ → N) (json_parse : Str → Option (Js N))
      (structured_clone : Js N → Result LoadError (Js N)) (opts : Options N) (loader : Loader N)
      → create_fixture_loader index json_parse structured_clone opts ≡ ok loader
      → NulFree loader.layers
      → {caches : Caches N} → Reach loader caches
      → ((ref : Str)
          → (Loading.load_raw loader ref caches).0 ≡ (Loading.load_raw loader ref no_caches).0)
        × ((t : Option Str) → (Calls.list loader t caches).0 ≡ (Calls.list loader t no_caches).0)
        × ((t : Option Str) (v : Js N)
            → (resolve_ref loader t v caches).0 ≡ (resolve_ref loader t v no_caches).0)
  Reach-no_caches index json_parse structured_clone opts loader created free r =
      let apart = apart_of index json_parse structured_clone opts loader created free in
      let sound = Reach-IsSound loader apart r in
      (
        λ ref. ((load_raw-Agrees loader apart ref).at _ sound).0,
        λ t. ((list-Agrees loader apart t).at _ sound).0,
        λ t v. ((resolve_ref-Agrees loader apart t v).at _ sound).0,
      )
