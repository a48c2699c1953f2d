-- ===== src/Fixtures/Loading.antt =====
-- Loading one fixture from its layers (packages/fixtures/src/loader.ts).
use mirk.Common.{
  Bool, true, false, ◌||◌, not, Option, none, some, List, [], ◌∷◌, ◌++◌, map, if◌then◌else◌,
}
use mirk.Common.Result.{Result, ok, err}
use mirk.Text.{Str, str_eq}
use mirk.Map
use mirk.Map.{Map}
use mirk.Js.{Number, Js}
use mirk.Fixtures.Refs.{ParsedRef, parse_ref}
use mirk.Fixtures.Layering.{
  patch_ref, is_patch_document, patch_body, provenance_ctx, merge_with_strategy,
}
use mirk.Fixtures.Shape.{
  not_found, patch_ref_mismatch, patch_without_base, Code, LoadError, Kind, base, replace, patch,
  shadowed, ProvenanceLayer, TypeDefinition, Loaded, Loader, failure,
}
use mirk.Fixtures.Validation.{validate_against_schema}
use mirk.Fixtures.Sources.{ParsedLayer, Load, def_or_throw}
use mirk.Fixtures.Documents.{◌>>=◌, pure, parsed_candidates}

-- The last layer that is no patch, with those before and after it.
pub record Split (N : Type 0) : Type 0 where
  pub before : List (ParsedLayer N)
  pub base_layer : ParsedLayer N
  pub after : List (ParsedLayer N)

-- `parseRef(ref)` as the loader throws it.
unfoldable pub parse_or_throw : Str → Result LoadError ParsedRef
unfolding parse_ref failure
parse_or_throw ref = elim (parse_ref ref) [
  | err e ↦ err (failure Code.invalid_ref (some ref) none none)
  | ok p ↦ ok p
]

module _ {N : Type 0} where
  -- Every patch names the fixture that it is applied to.
  unfoldable pub check_patch_refs : Str → List (ParsedLayer N) → Result LoadError (Unit {0})
  unfolding patch_ref failure
  check_patch_refs ref [] = ok tt
  check_patch_refs ref (l ∷ ls) = elim (patch_ref l.parsed) [
    | none ↦ check_patch_refs ref ls
    | some named ↦ elim (str_eq named ref) [
      | true ↦ check_patch_refs ref ls
      | false ↦
          err (failure patch_ref_mismatch (some ref) (some l.layer.source.id) (some l.source_path))
    ]
  ]

  unfoldable pub split_base : List (ParsedLayer N) → Option (Split N)
  unfolding is_patch_document
  split_base [] = none
  split_base (l ∷ ls) = elim (split_base ls) [
    | some s ↦ some (record s { before = l ∷ s.before })
    | none ↦ elim (is_patch_document l.parsed) [
      | true ↦ none
      | false ↦ some (record { before = []; base_layer = l; after = ls })
    ]
  ]

  unfoldable pub provenance_of : Kind → ParsedLayer N → ProvenanceLayer N
  provenance_of kind l = record {
    source_id = l.layer.source.id;
    layer = l.layer.name;
    priority = l.layer.priority;
    path = l.source_path;
    kind = kind;
  }

  -- The kind of a layer before the base.
  unfoldable pub kind_before : ParsedLayer N → Kind
  unfolding is_patch_document
  kind_before l = if is_patch_document l.parsed then shadowed else replace

module _ {N : Type 0} ⦃number : Number N⦄ where
  -- `layer.priority <= base.priority` fails.
  unfoldable pub is_above : ParsedLayer N → ParsedLayer N → Bool
  is_above base_layer l = not (
      number.lt l.layer.priority base_layer.layer.priority
      || number.eq l.layer.priority base_layer.layer.priority)

  -- One patch merged and validated.
  unfoldable pub apply_patch :
      Loader N
      → TypeDefinition N
      → Str
      → ParsedLayer N
      → Js N
      → List (ProvenanceLayer N)
      → Result LoadError (Js N)
  unfolding merge_with_strategy validate_against_schema patch_body provenance_ctx
  apply_patch loader def ref l current provenance =
      elim (merge_with_strategy loader.structured_clone def.merge_strategy current
        (patch_body l.parsed) ref (provenance_ctx provenance)) [
          | err e ↦ err e
          | ok merged ↦
              validate_against_schema loader def ref l.layer.source.id l.source_path merged
        ]

  -- The loop over the layers after the base.
  unfoldable pub apply_patches :
      Loader N
      → TypeDefinition N
      → Str
      → ParsedLayer N
      → Js N
      → List (ProvenanceLayer N)
      → List (ParsedLayer N)
      → Result LoadError (Js N × List (ProvenanceLayer N))
  unfolding is_above apply_patch is_patch_document provenance_of
  apply_patches loader def ref base_layer current provenance [] = ok (current, provenance)
  apply_patches loader def ref base_layer current provenance (l ∷ ls) =
      elim (is_patch_document l.parsed) [
        | false ↦ apply_patches loader def ref base_layer current provenance ls
        | true ↦ elim (is_above base_layer l) [
          | false ↦
              apply_patches loader def ref base_layer current
                (provenance ++ provenance_of shadowed l ∷ []) ls
          | true ↦ elim (apply_patch loader def ref l current provenance) [
            | err e ↦ err e
            | ok next ↦
                apply_patches loader def ref base_layer next
                  (provenance ++ provenance_of patch l ∷ []) ls
          ]
        ]
      ]

  -- From the base on.
  unfoldable pub from_base :
      Loader N
      → TypeDefinition N
      → Str
      → Split N
      → Result LoadError (Js N × List (ProvenanceLayer N))
  unfolding validate_against_schema apply_patches provenance_of kind_before
  from_base loader def ref s =
      elim (validate_against_schema loader def ref s.base_layer.layer.source.id
        s.base_layer.source_path s.base_layer.parsed) [
          | err e ↦ err e
          | ok value ↦
              apply_patches loader def ref s.base_layer value
                (map (λ l. provenance_of (kind_before l) l) s.before
                  ++ provenance_of base s.base_layer ∷ [])
                s.after
        ]

  -- The value and the provenance of a fixture with these layers.
  unfoldable pub combine_layers :
      Loader N
      → TypeDefinition N
      → Str
      → List (ParsedLayer N)
      → Result LoadError (Js N × List (ProvenanceLayer N))
  unfolding check_patch_refs split_base from_base failure
  combine_layers loader def ref [] = err (failure not_found (some ref) none none)
  combine_layers loader def ref (l ∷ ls) = elim (check_patch_refs ref (l ∷ ls)) [
    | err e ↦ err e
    | ok _ ↦ elim (split_base (l ∷ ls)) [
      | none ↦ err (failure patch_without_base (some ref) none none)
      | some s ↦ from_base loader def ref s
    ]
  ]

  -- What `loadRawInternal` does without its cache, once the reference is parsed.
  unfoldable pub load_parsed : Loader N → Str → List Str → ParsedRef → Load N (Loaded N)
  unfolding def_or_throw parsed_candidates combine_layers
  load_parsed loader ref skip parsed = do
    def ← pure (def_or_throw loader parsed.type_name ref)
    layers ← parsed_candidates loader def (some parsed.id) skip
    built ← pure (combine_layers loader def ref layers)
    pure (
        ok (record {
          ref = ref;
          type_name = parsed.type_name;
          id = parsed.id;
          value = built.0;
          layers = built.1;
        }))

  unfoldable pub load_fresh : Loader N → Str → List Str → Load N (Loaded N)
  unfolding parse_or_throw load_parsed
  load_fresh loader ref skip = do
    parsed ← pure (parse_or_throw ref)
    load_parsed loader ref skip parsed

  unfoldable pub keep_loaded : Str → Loaded N → Load N (Loaded N)
  unfolding Map.set
  keep_loaded ref loaded caches = (ok loaded, record caches { raw = Map.set ref loaded caches.raw })

  -- `loadRawInternal(ref, skipSources)`: the cache serves when nothing is skipped.
  unfoldable pub load_raw_internal : Loader N → Str → List Str → Load N (Loaded N)
  unfolding load_fresh keep_loaded Map.get
  load_raw_internal loader ref (s ∷ skip) caches = load_fresh loader ref (s ∷ skip) caches
  load_raw_internal loader ref [] caches = elim (Map.get ref caches.raw) [
    | some loaded ↦ (ok loaded, caches)
    | none ↦ (load_fresh loader ref [] >>= keep_loaded ref) caches
  ]

  -- `loadRaw(ref)`
  unfoldable pub load_raw : Loader N → Str → Load N (Loaded N)
  unfolding load_raw_internal
  load_raw loader ref = load_raw_internal loader ref []

  -- `load(ref)`
  unfoldable pub load : Loader N → Str → Load N (Js N)
  unfolding load_raw
  load loader ref = do loaded ← load_raw loader ref; pure (ok loaded.value)
