-- ===== src/Fixtures/Shape.antt =====
-- The data of the fixture loader (packages/fixtures/src/types.ts, errors.ts). The texts of messages
-- and hints and the positions in files are left out.
use mirk.Common.{ℕ, Option, none, List}
use mirk.Common.Result.{Result}
use mirk.Text.{Str}
use mirk.Js.{Js}
use mirk.Map.{Map}

pub data Severity : Type 0 where
  info warning error : Severity

-- The `code` of a diagnostic.
pub data Code : Type 0 where
  unknown_type source_list_failed no_parser source_read_failed parse_failed : Code
  invalid_map_document invalid_map_fixture map_id_mismatch duplicate_map_fixture : Code
  no_json_schema_validator schema_invalid not_found patch_ref_mismatch patch_without_base : Code
  type_mismatch invalid_ref materialization_cycle duplicate_source : Code
  missing_schema duplicate_type missing_reference unresolved_reference unknown_error : Code

pub record Diagnostic : Type 0 where
  pub severity : Severity
  pub code : Code
  pub fixture : Option Str
  pub source : Option Str
  pub path : Option Str
  pub field_path : Option Str

-- An issue of a schema; its path is written out as `formatIssuePath` does.
pub record Issue : Type 0 where
  pub field_path : Option Str

-- `FixtureError`, `FixtureValidationError`, and an error that other code throws.
pub data LoadError : Type 0 where
  fixture_error : Diagnostic → LoadError
  validation_error : Diagnostic → List Issue → LoadError
  thrown : LoadError

-- `FixtureSourceEntry`
pub record Entry : Type 0 where
  pub relative_path : Str
  pub locator : Str

-- `FixtureSource`; `none` is a call that throws.
pub record Source : Type 0 where
  pub id : Str
  pub list : Option (List Entry)
  pub read : Entry → Option Str

-- What `sources` holds: a source, or a `LayeredSource`.
pub data SourceOption (N : Type 0) : Type 0 where
  bare : Source → SourceOption N
  layered : Source → Str → N → SourceOption N

-- `NormalizedLayeredSource`
pub record Layer (N : Type 0) : Type 0 where
  pub source : Source
  pub name : Str
  pub priority : N
  pub order : ℕ

-- `FixtureProvenanceLayerKind`
pub data Kind : Type 0 where
  base replace patch shadowed : Kind

-- `FixtureProvenanceLayer`
pub record ProvenanceLayer (N : Type 0) : Type 0 where
  pub source_id : Str
  pub layer : Str
  pub priority : N
  pub path : Str
  pub kind : Kind

-- A layer of `MergeContext`.
pub record ContextLayer (N : Type 0) : Type 0 where
  pub source_id : Str
  pub layer : Str
  pub priority : N
  pub kind : Kind

pub data MergeStrategy (N : Type 0) : Type 0 where
  replace_with deep array_replace : MergeStrategy N
  custom : (Js N → Js N → Str → List (ContextLayer N) → Result LoadError (Js N)) → MergeStrategy N

pub data ReferenceMode : Type 0 where
  explicit_only explicit_and_bare : ReferenceMode

-- `ExtractedReference`; the path is written out as `pathString` does.
pub record ExtractedReference : Type 0 where
  pub ref : Str
  pub field_path : Str

-- A `materialize` callback at a value: it asks the loader, goes on with each answer, which it may
-- catch when it is an error, and ends with a value or an error.
pub data Materializer (N : Type 0) : Type 0 where
  answer : Result LoadError (Js N) → Materializer N
  load_raw : Str → (Result LoadError (Js N) → Materializer N) → Materializer N
  materialize : Str → (Result LoadError (Js N) → Materializer N) → Materializer N

-- `FixtureTypeDefinition`. A schema answers its output or its issues; `document` is given with its
-- `idField`.
pub record TypeDefinition (N : Type 0) : Type 0 where
  pub type_name : Str
  pub directory : Str
  pub extensions : Option (List Str)
  pub json_schema : Option (Js N)
  pub schema : Option (Js N → Result (List Issue) (Js N))
  pub document : Option (Option Str)
  pub merge_strategy : Option (MergeStrategy N)
  pub reference_mode : Option ReferenceMode
  pub extract_references : Option (Js N → List ExtractedReference)
  pub materializer : Option (Js N → Materializer N)

-- `LoadedFixture`
pub record Loaded (N : Type 0) : Type 0 where
  pub ref : Str
  pub type_name : Str
  pub id : Str
  pub value : Js N
  pub layers : List (ProvenanceLayer N)

-- What `createFixtureLoader` closes over; a parser that throws answers nothing.
pub record Loader (N : Type 0) : Type 0 where
  pub registry : Map (TypeDefinition N)
  pub layers : List (Layer N)
  pub parsers : Map (Str → Option (Js N))
  pub reference_mode : Option ReferenceMode
  pub json_schema_validator : Option (Js N → Js N → List Issue)
  pub structured_clone : Js N → Result LoadError (Js N)

-- The error with a code, at a fixture, a source and a path.
unfoldable pub failure : Code → Option Str → Option Str → Option Str → LoadError
failure code fixture source path = fixture_error (record {
  severity = error;
  code = code;
  fixture = fixture;
  source = source;
  path = path;
  field_path = none;
})
