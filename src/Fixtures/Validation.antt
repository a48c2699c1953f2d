-- ===== src/Fixtures/Validation.antt =====
-- The check of a value against the two schemas of its type (packages/fixtures/src/loader.ts).
use mirk.Common.{none, some, List, [], ◌∷◌}
use mirk.Common.Result.{Result, ok, err}
use mirk.Text.{Str}
use mirk.Js.{Js}
use mirk.Fixtures.Shape.{
  no_json_schema_validator, schema_invalid, Severity, LoadError, Issue, validation_error,
  TypeDefinition, Loader, failure,
}

-- `FixtureValidationError`
unfoldable pub schema_failure : Str → Str → Str → List Issue → LoadError
schema_failure ref source_id path issues =
    validation_error
      (record {
        severity = Severity.error;
        code = schema_invalid;
        fixture = some ref;
        source = some source_id;
        path = some path;
        field_path = elim issues [ [] ↦ none | i ∷ is ↦ i.field_path ];
      })
      issues

module _ {N : Type 0} where
  -- `jsonSchemaValidatorFor(def, document)`; a kept validator is the one that would be compiled.
  unfoldable pub json_schema_validator_for : Loader N → Js N → Result LoadError (Js N → List Issue)
  unfolding failure
  json_schema_validator_for loader document = elim loader.json_schema_validator [
    | none ↦ err (failure no_json_schema_validator none none none)
    | some compile ↦ ok (compile document)
  ]

  -- The check of the shape that crosses languages.
  unfoldable pub check_json_schema :
      Loader N → TypeDefinition N → Str → Str → Str → Js N → Result LoadError (Unit {0})
  unfolding schema_failure json_schema_validator_for
  check_json_schema loader def ref source_id path v = elim def.json_schema [
    | none ↦ ok tt
    | some document ↦ elim (json_schema_validator_for loader document) [
      | err e ↦ err e
      | ok validator ↦ elim (validator v) [
        | [] ↦ ok tt
        | i ∷ is ↦ err (schema_failure ref source_id path (i ∷ is))
      ]
    ]
  ]

  -- `validateAgainstSchema(ref, sourceId, relativePath, parsed, def)`
  unfoldable pub validate_against_schema :
      Loader N → TypeDefinition N → Str → Str → Str → Js N → Result LoadError (Js N)
  unfolding check_json_schema schema_failure
  validate_against_schema loader def ref source_id path v =
      elim (check_json_schema loader def ref source_id path v) [
        | err e ↦ err e
        | ok _ ↦ elim def.schema [
          | none ↦ ok v
          | some validate ↦ elim (validate v) [
            | err issues ↦ err (schema_failure ref source_id path issues)
            | ok w ↦ ok w
          ]
        ]
      ]
