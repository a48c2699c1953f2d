-- ===== src/Fixtures/Calls.antt =====
-- The calls of a loader (packages/fixtures/src/loader.ts).
use mirk.Common.{
  ℕ, zero, suc, Bool, true, false, ◌||◌, Option, none, some, List, [], ◌∷◌, ◌++◌, if◌then◌else◌,
}
use mirk.Common.Result.{Result, ok, err}
use mirk.Text.{Str, ascii, is_empty, str_eq, compare_code_points}
use mirk.Sort.{sort}
use mirk.Map
use mirk.Map.{Map}
use mirk.Js.{Number, Js}
use mirk.Graph.{includes}
use mirk.Fixtures.Refs.{parse_ref, format_ref, explicit_ref, text_of}
use mirk.Fixtures.Shape.{
  type_mismatch, materialization_cycle, LoadError, ReferenceMode, explicit_and_bare, Materializer,
  answer, load_raw, materialize, Loaded, Loader, failure,
}
use mirk.Fixtures.Sources.{ParsedLayer, Caches, Load, no_caches, def_or_throw}
use mirk.Fixtures.Documents.{◌>>=◌, pure, parsed_candidates}
use mirk.Fixtures.Registry.{types}
use mirk.Fixtures.Loading
use mirk.Fixtures.Validation.{validate_against_schema}
use mirk.Fixtures.Loading.{load, parse_or_throw}

-- A `Set` of references, in the order of insertion.
unfoldable pub add_ref : Str → List Str → List Str
unfolding includes
add_ref ref refs = if includes ref refs then refs else refs ++ ref ∷ []

-- `mode === "explicit-and-bare"`
unfoldable pub is_bare_mode : Option ReferenceMode → Bool
is_bare_mode (some explicit_and_bare) = true
is_bare_mode _ = false

-- `expectedType ?? type`
abbrev pub or_type : Option Str → Str → Str
or_type none t = t
or_type (some expected) t = expected

-- A call that may run out of fuel.
abbrev pub Bounded : Type 0 → Type 0
Bounded N = Caches N → Option (Result LoadError (Js N) × Caches N)

module _ {N : Type 0} where
  unfoldable pub add_refs : Str → List (ParsedLayer N) → List Str → List Str
  unfolding add_ref format_ref
  add_refs type_name [] refs = refs
  add_refs type_name (l ∷ ls) refs =
      add_refs type_name ls (add_ref (format_ref type_name l.id) refs)

  -- The types that `list(type)` looks at.
  unfoldable pub listed_types : Loader N → Option Str → List Str
  unfolding types Map.has
  listed_types loader none = types loader.registry
  listed_types loader (some []) = types loader.registry
  listed_types loader (some (u ∷ t)) = if Map.has (u ∷ t) loader.registry then (u ∷ t) ∷ [] else []

  -- `invalidate(ref)`
  unfoldable pub invalidate : Option Str → Caches N → Caches N
  unfolding Map.remove
  invalidate none caches = no_caches
  invalidate (some []) caches = no_caches
  invalidate (some (u ∷ ref)) caches = record {
    raw = Map.remove (u ∷ ref) caches.raw;
    material = [];
    parsed = [];
  }

module _ {N : Type 0} ⦃number : Number N⦄ where
  -- The loop over the types.
  unfoldable pub list_types : Loader N → List Str → List Str → Load N (List Str)
  unfolding parsed_candidates add_refs Map.get
  list_types loader [] refs = pure (ok refs)
  list_types loader (t ∷ ts) refs = elim (Map.get t loader.registry) [
    | none ↦ list_types loader ts refs
    | some def ↦
        parsed_candidates loader def none [] >>= λ ls. list_types loader ts (add_refs t ls refs)
  ]

  -- `list(type)`
  unfoldable pub list : Loader N → Option Str → Load N (List Str)
  unfolding list_types listed_types sort
  list loader type_name = do
    refs ← list_types loader (listed_types loader type_name) []
    pure (ok (sort compare_code_points refs))

  -- A materializer with what its `materialize` calls.
  unfoldable pub run_materializer : Loader N → (Str → Bounded N) → Materializer N → Bounded N
  unfolding load
  run_materializer loader again (answer r) caches = some (r, caches)
  run_materializer loader again (load_raw ref next) caches =
      let (r, caches') = load loader ref caches in run_materializer loader again (next r) caches'
  run_materializer loader again (materialize ref next) caches = elim (again ref caches) [
    | none ↦ none
    | some (r, caches') ↦ run_materializer loader again (next r) caches'
  ]

  unfoldable pub keep_material :
      Str
      → Option (Result LoadError (Js N) × Caches N)
      → Option (Result LoadError (Js N) × Caches N)
  unfolding Map.set
  keep_material ref none = none
  keep_material ref (some (err e, caches)) = some (err e, caches)
  keep_material ref (some (ok v, caches)) =
      some (ok v, record caches { material = Map.set ref v caches.material })

  -- The `materialize` of the type of a loaded fixture.
  unfoldable pub materializer_of : Loader N → Loaded N → Materializer N
  unfolding Map.get
  materializer_of loader loaded = elim (Map.get loaded.type_name loader.registry) [
    | none ↦ answer (ok loaded.value)
    | some def ↦ elim def.materializer [ none ↦ answer (ok loaded.value) | some f ↦ f loaded.value ]
  ]

  -- With the loaded fixture.
  unfoldable pub materialize_loaded :
      Loader N
      → (Str → Bounded N)
      → Result LoadError (Loaded N) × Caches N
      → Option (Result LoadError (Js N) × Caches N)
  unfolding run_materializer materializer_of
  materialize_loaded loader again (err e, caches) = some (err e, caches)
  materialize_loaded loader again (ok loaded, caches) =
      run_materializer loader again (materializer_of loader loaded) caches

  -- `materializeInternal(ref, stack)`, with fuel for the nesting.
  unfoldable pub materialize_internal : ℕ → Loader N → List Str → Str → Bounded N
  unfolding materialize_loaded keep_material includes failure Map.get Loading.load_raw
  materialize_internal zero loader stack ref caches = none
  materialize_internal (suc f) loader stack ref caches = elim (Map.get ref caches.material) [
    | some v ↦ some (ok v, caches)
    | none ↦ elim (includes ref stack) [
      | true ↦ some (err (failure materialization_cycle (some ref) none none), caches)
      | false ↦ keep_material ref (
          materialize_loaded loader (materialize_internal f loader (stack ++ ref ∷ []))
            (Loading.load_raw loader ref caches))
    ]
  ]

  -- `bareRefsEnabledFor(ref, expectedType)`, with the type of the reference.
  unfoldable pub bare_refs_enabled_for : Loader N → Str → Option Str → Bool
  unfolding is_bare_mode Map.get
  bare_refs_enabled_for loader type_name expected =
      is_bare_mode loader.reference_mode
      || elim (Map.get (or_type expected type_name) loader.registry) [
        | none ↦ false
        | some def ↦ is_bare_mode def.reference_mode
      ]

  -- A reference that is loaded, if it has the expected type.
  unfoldable pub load_typed : Loader N → Option Str → Str → Load N (Js N)
  unfolding parse_or_throw str_eq load failure
  load_typed loader expected ref = do
    parsed ← pure (parse_or_throw ref)
    (if is_empty (or_type expected []) || str_eq parsed.type_name (or_type expected [])
        then load loader ref
        else pure (err (failure type_mismatch (some ref) none none)))

  -- A text that `resolveRef` takes for a reference.
  unfoldable pub bare_ref : Loader N → Option Str → Js N → Option Str
  unfolding text_of parse_ref bare_refs_enabled_for
  bare_ref loader expected v = elim (text_of v) [
    | none ↦ none
    | some s ↦ elim (parse_ref s) [
      | err e ↦ none
      | ok p ↦ if bare_refs_enabled_for loader p.type_name expected then some s else none
    ]
  ]

  -- An inline value is validated if a type is expected.
  unfoldable pub resolve_inline : Loader N → Option Str → Js N → Load N (Js N)
  unfolding def_or_throw validate_against_schema
  resolve_inline loader expected v =
      if is_empty (or_type expected [])
      then pure (ok v)
      else let name = ascii "<inline " ++ or_type expected [] ++ ascii ">" in
        (pure (def_or_throw loader (or_type expected []) name) >>= λ def.
        pure (validate_against_schema loader def name (ascii "<inline>") (ascii "<inline>") v))

  -- `resolveRef(value, expectedType)`
  unfoldable pub resolve_ref : Loader N → Option Str → Js N → Load N (Js N)
  unfolding explicit_ref load_typed bare_ref resolve_inline
  resolve_ref loader expected v = elim (explicit_ref v) [
    | some ref ↦ load_typed loader expected ref
    | none ↦ elim (bare_ref loader expected v) [
      | some ref ↦ load_typed loader expected ref
      | none ↦ resolve_inline loader expected v
    ]
  ]
