-- ===== src/Fixtures/Registry.antt =====
-- The registry of fixture types and the options of a loader (packages/fixtures/src/registry.ts,
-- loader.ts).
use mirk.Common.{ℕ, Bool, true, false, not, Option, none, some, List, [], ◌∷◌, if◌then◌else◌}
use mirk.Common.Result.{Result, ok, err}
use mirk.Text.{Str, ascii, compare_code_points}
use mirk.Sort.{sort}
use mirk.Map
use mirk.Map.{Map}
use mirk.Js.{Number, Js}
use mirk.Graph.{includes}
use mirk.Fixtures.Layering.{normalize_layers}
use mirk.Fixtures.Shape.{
  missing_schema, duplicate_type, duplicate_source, LoadError, Issue, SourceOption, Layer,
  ReferenceMode, TypeDefinition, Loader, failure,
}

module _ {N : Type 0} where
  -- `def.jsonSchema === undefined && !def.schema` fails.
  unfoldable pub has_contract : TypeDefinition N → Bool
  has_contract def = elim def.json_schema [
    | some document ↦ true
    | none ↦ elim def.schema [ none ↦ false | some schema ↦ true ]
  ]

  -- `FixtureRegistry.register(def)`
  unfoldable pub register :
      TypeDefinition N → Map (TypeDefinition N) → Result LoadError (Map (TypeDefinition N))
  unfolding has_contract Map.has Map.set failure
  register def defs =
      if not (has_contract def)
      then err (failure missing_schema none none none)
      else if Map.has def.type_name defs
      then err (failure duplicate_type none none none)
      else ok (Map.set def.type_name def defs)

  -- `FixtureRegistry.types()`
  unfoldable pub types : Map (TypeDefinition N) → List Str
  unfolding sort Map.keys
  types defs = sort compare_code_points (Map.keys defs)

  -- `assertDistinctSourceIds(layers)`, with the ids seen before.
  unfoldable pub assert_distinct_source_ids :
      List Str → List (Layer N) → Result LoadError (Unit {0})
  unfolding includes failure
  assert_distinct_source_ids seen [] = ok tt
  assert_distinct_source_ids seen (l ∷ ls) =
      let rest = assert_distinct_source_ids (l.source.id ∷ seen) ls in
      if includes l.source.id seen
      then err (failure duplicate_source none (some l.source.id) none)
      else rest

  -- `normalizeParsers(parsers)` onto the parsers so far.
  unfoldable pub set_parsers :
      Map (Str → Option (Js N)) → Map (Str → Option (Js N)) → Map (Str → Option (Js N))
  unfolding Map.set
  set_parsers out [] = out
  set_parsers out ((ext, parser) ∷ rest) = set_parsers (Map.set ext parser out) rest

  -- `{ ".json": JSON.parse }` and the given parsers.
  unfoldable pub normalize_parsers :
      (Str → Option (Js N)) → Option (Map (Str → Option (Js N))) → Map (Str → Option (Js N))
  unfolding set_parsers
  normalize_parsers json_parse none = (ascii ".json", json_parse) ∷ []
  normalize_parsers json_parse (some parsers) =
      set_parsers ((ascii ".json", json_parse) ∷ []) parsers

-- `FixtureLoaderOptions`
pub record Options (N : Type 0) : Type 0 where
  pub registry : Map (TypeDefinition N)
  pub sources : List (SourceOption N)
  pub parsers : Option (Map (Str → Option (Js N)))
  pub reference_mode : Option ReferenceMode
  pub json_schema_validator : Option (Js N → Js N → List Issue)

-- `createFixtureLoader(opts)`; `JSON.parse`, `structuredClone` and the numbers of the places are
-- the platform's.
module _ {N : Type 0} ⦃number : Number N⦄ where
  unfoldable pub create_fixture_loader :
      (ℕ → N)
      → (Str → Option (Js N))
      → (Js N → Result LoadError (Js N))
      → Options N
      → Result LoadError (Loader N)
  unfolding assert_distinct_source_ids normalize_parsers normalize_layers
  create_fixture_loader index json_parse structured_clone opts =
      let layers = normalize_layers index opts.sources in
      elim (assert_distinct_source_ids [] layers) [
        | err e ↦ err e
        | ok _ ↦ ok (record {
          registry = opts.registry;
          layers = layers;
          parsers = normalize_parsers json_parse opts.parsers;
          reference_mode = opts.reference_mode;
          json_schema_validator = opts.json_schema_validator;
          structured_clone = structured_clone;
        })
      ]
