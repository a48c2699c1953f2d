-- ===== src/Tests/Fixtures.antt =====
-- The fixture loader at two sources, one of which patches the other.
use mirk.Common.{
  ℕ, ◌≡◌, ◌↔◌, refl, sym, ap, subst, true, false, none, some, Option, List, [], ◌∷◌, arith, inl,
  inr, Member, length, map, if◌then◌else◌,
}
use mirk.Common.Result.{Result, ok, ok-injective}
use mirk.Text.{Str, ascii, str_eq}
use mirk.Sort.{sort, insert}
use mirk.Js.{
  Js, undefined, null, opaque, bool, str, arr, instance_of, num, obj, end, field, property, at,
  or_undefined,
}
use mirk.Graph.{includes}
use mirk.Fixtures.Refs.{
  parse_ref, includes_unit, type_re, id_re, format_ref, text_property, text_of,
}
use mirk.Fixtures.Refs.Grammar.{parse_ref-format_ref}
use mirk.Fixtures.Layering.{
  is_patch_document, patch_ref, patch_body, without_field, compare_layers, number_layers,
  normalize_layers, deep_merge, clone_onto, clone_jsonish, put_field, set_field,
  merge_with_strategy, provenance_ctx,
}
use mirk.Fixtures.Shape.{
  Entry, Source, layered, Layer, deep, LoadError, TypeDefinition, Loader, ProvenanceLayer, answer,
  materialize,
}
use mirk.Fixtures.Sources.{ParsedLayer, no_caches, Caches, source_candidates, read_and_parse_fresh}
use mirk.Fixtures.Documents.{expand_parsed}
use mirk.Fixtures.Keys.{NoNul}
use mirk.Fixtures.Registry.{
  Options, create_fixture_loader, assert_distinct_source_ids, normalize_parsers,
}
use mirk.Fixtures.Calls
use mirk.Fixtures.Calls.{materialize_internal, resolve_ref}
use mirk.Fixtures.Loading
use mirk.Fixtures.Validation.{validate_against_schema, check_json_schema}
use mirk.Fixtures.Loading.{check_patch_refs, combine_layers, apply_patch, is_above}
use mirk.Fixtures.Fresh.Steps.{start, step, load_step, NulFree, Reach-no_caches}
use mirk.Fixtures.Fresh.Known.{held_refs}
use mirk.Fixtures.Fresh.Termination.{materialize_internal-held_refs}
use mirk.Fixtures.Reading.{Reading, patched, read_layer, read_on, read_layers}
use mirk.Fixtures.Reading.Bases.{place, place_of, bases}
use mirk.Fixtures.Reading.Value.{combine_layers-read_layers}
use mirk.Fixtures.Merge.{Clones, IsPlain, IsLeaf}
use mirk.Fixtures.Merge.Paths.{at_path, Silent, at_path-deep_merge}
use mirk.Tests.{nat_number, text, program}

abbrev team_red : Str
team_red = ascii "team:red"

parse_ref-format_ref_example :
    (parse_ref team_red ≡ ok (record { type_name = ascii "team"; id = ascii "red" })) ↔ (
      (team_red ≡ format_ref (ascii "team") (ascii "red"))
      × (type_re (ascii "team") ≡ true)
      × (id_re (ascii "red") ≡ true))
parse_ref-format_ref_example =
    parse_ref-format_ref team_red (record { type_name = ascii "team"; id = ascii "red" })

abbrev base_document : Js ℕ
base_document =
    obj (field (ascii "a") (num 1) (field (ascii "b") (obj (field (ascii "c") (num 2) end)) end))

abbrev patch_fields : Js ℕ
patch_fields = obj (field (ascii "b") (obj (field (ascii "d") (num 3) end)) end)

abbrev patch_document : Js ℕ
patch_document = obj (
    field (ascii "$patch") (text "team:red")
      (field (ascii "b") (obj (field (ascii "d") (num 3) end)) end))

abbrev merged_document : Js ℕ
merged_document = obj (
    field (ascii "a") (num 1)
      (field (ascii "b") (obj (field (ascii "c") (num 2) (field (ascii "d") (num 3) end))) end))

abbrev same_value : Js ℕ → Result LoadError (Js ℕ)
same_value v = ok v

-- The copy of an object of a class is a plain object.
abbrev plain_copy : Js ℕ → Result LoadError (Js ℕ)
plain_copy (instance_of fs) = ok (obj fs)
plain_copy v = ok v

plain_copy-Clones : Clones plain_copy
unfolding IsPlain
plain_copy-Clones (instance_of fs) w h e = absurd h
plain_copy-Clones undefined w h e = sym (ok-injective e)
plain_copy-Clones null w h e = sym (ok-injective e)
plain_copy-Clones opaque w h e = sym (ok-injective e)
plain_copy-Clones (bool b) w h e = sym (ok-injective e)
plain_copy-Clones (num n) w h e = sym (ok-injective e)
plain_copy-Clones (str t) w h e = sym (ok-injective e)
plain_copy-Clones (arr xs) w h e = sym (ok-injective e)
plain_copy-Clones (obj fs) w h e = sym (ok-injective e)

merge_run : deep_merge plain_copy patch_fields base_document ≡ ok merged_document
unfolding deep_merge clone_onto clone_jsonish put_field set_field property str_eq
merge_run = refl

base-IsPlain : IsPlain base_document
unfolding IsPlain property str_eq
base-IsPlain = ((refl, refl, (refl, refl, tt)), (tt, (((refl, refl, tt), (tt, tt)), tt)))

patch-IsPlain : IsPlain patch_fields
unfolding IsPlain property str_eq
patch-IsPlain = ((refl, refl, tt), (((refl, refl, tt), (tt, tt)), tt))

at_path-deep_merge_example :
    ((v : Js ℕ)
      → at_path (ascii "b" ∷ ascii "d" ∷ []) patch_fields ≡ some v
      → IsLeaf v
      → at_path (ascii "b" ∷ ascii "d" ∷ []) merged_document ≡ some v)
    × (Silent (ascii "b" ∷ ascii "d" ∷ []) patch_fields
        → at_path (ascii "b" ∷ ascii "d" ∷ []) merged_document
          ≡ at_path (ascii "b" ∷ ascii "d" ∷ []) base_document)
at_path-deep_merge_example =
    at_path-deep_merge plain_copy plain_copy-Clones (ascii "b" ∷ ascii "d" ∷ []) base_document
      patch_fields merged_document base-IsPlain patch-IsPlain merge_run

-- A source with the file `red.json`, whose content is its own name.
abbrev red_file : Entry
red_file = record { relative_path = ascii "red.json"; locator = ascii "red" }

abbrev source_of : Str → Source
source_of name = record { id = name; list = some (red_file ∷ []); read = λ e. some name }

abbrev parse_document : Str → Option (Js ℕ)
parse_document content =
    if str_eq content (ascii "s") then some base_document else some patch_document

abbrev layer_at : Str → ℕ → Layer ℕ
layer_at name i = record { source = source_of name; name = name; priority = i; order = i }

-- A team asks for itself, and takes the answer, an error, as none.
abbrev team : TypeDefinition ℕ
team = record {
  type_name = ascii "team";
  directory = [];
  extensions = none;
  json_schema = none;
  schema = some (λ v. ok v);
  document = none;
  merge_strategy = some deep;
  reference_mode = none;
  extract_references = none;
  materializer = some (λ v. materialize team_red (λ r. answer (ok v)));
}

abbrev two_sources : Options ℕ
two_sources = record {
  registry = (ascii "team", team) ∷ [];
  sources =
      layered (source_of (ascii "s")) (ascii "s") 0
      ∷ layered (source_of (ascii "t")) (ascii "t") 1
      ∷ [];
  parsers = none;
  reference_mode = none;
  json_schema_validator = none;
}

abbrev loader : Loader ℕ
loader = record {
  registry = (ascii "team", team) ∷ [];
  layers = layer_at (ascii "s") 0 ∷ layer_at (ascii "t") 1 ∷ [];
  parsers = (ascii ".json", parse_document) ∷ [];
  reference_mode = none;
  json_schema_validator = none;
  structured_clone = same_value;
}

loader_run : create_fixture_loader (λ i. i) parse_document same_value two_sources ≡ ok loader
unfolding create_fixture_loader normalize_layers number_layers compare_layers sort insert
    assert_distinct_source_ids normalize_parsers includes str_eq
loader_run = refl

red_only :
    (a : Layer ℕ) (es : List Entry) (e : Entry)
    → a.source.list ≡ some (red_file ∷ [])
    → a.source.list ≡ some es
    → Member e es
    → NoNul e.locator × NoNul e.relative_path
unfolding includes_unit
red_only a es e h listed me =
    let same : red_file ∷ [] ≡ es = cc (h, listed) in
    elim (subst (Member e) (sym same) me) [
      | inl f ↦ subst (λ (x : Entry). NoNul x.locator × NoNul x.relative_path) (sym f) (refl, refl)
      | inr m ↦ absurd m
    ]

loader-NulFree : NulFree loader.layers
unfolding includes_unit
loader-NulFree = record {
  id = λ a m. elim m [
    | inl e ↦ subst (λ (x : Layer ℕ). includes_unit 0 x.source.id ≡ false) (sym e) refl
    | inr m' ↦ elim m' [
      | inl e ↦ subst (λ (x : Layer ℕ). includes_unit 0 x.source.id ≡ false) (sym e) refl
      | inr m'' ↦ absurd m''
    ]
  ];
  entry = λ a es e m listed me. elim m [
    | inl f ↦ red_only a es e (ap (λ (x : Layer ℕ). x.source.list) f) listed me
    | inr m' ↦ elim m' [
      | inl f ↦ red_only a es e (ap (λ (x : Layer ℕ). x.source.list) f) listed me
      | inr m'' ↦ absurd m''
    ]
  ];
}

abbrev loaded_caches : Caches ℕ
loaded_caches = (Loading.load_raw loader team_red no_caches).1

Reach-no_caches_example :
    ((ref : Str)
      → (Loading.load_raw loader ref loaded_caches).0 ≡ (Loading.load_raw loader ref no_caches).0)
    × ((t : Option Str) → (Calls.list loader t loaded_caches).0 ≡ (Calls.list loader t no_caches).0)
    × ((t : Option Str) (v : Js ℕ)
        → (resolve_ref loader t v loaded_caches).0 ≡ (resolve_ref loader t v no_caches).0)
Reach-no_caches_example =
    Reach-no_caches (λ i. i) parse_document same_value two_sources loader loader_run loader-NulFree
      (step start (load_step team_red refl))

held_run : length (held_refs loader) ≡ 2
unfolding held_refs source_candidates read_and_parse_fresh expand_parsed
held_run = refl

materialize_internal-held_refs_example :
    (r : Result LoadError (Js ℕ)) × (caches : Caches ℕ) × (materialize_internal 3 loader [] team_red
        loaded_caches
      ≡ some (r, caches))
materialize_internal-held_refs_example =
    materialize_internal-held_refs (λ i. i) parse_document same_value two_sources loader loader_run
      loader-NulFree (step start (load_step team_red refl)) team_red 3 (omega (arith, held_run))

abbrev layer_of : Str → ℕ → Js ℕ → ParsedLayer ℕ
layer_of name i v = record {
  layer = layer_at name i;
  id = ascii "red";
  parsed = v;
  source_path = ascii "red.json";
}

abbrev two_layers : List (ParsedLayer ℕ)
two_layers = layer_of (ascii "s") 0 base_document ∷ layer_of (ascii "t") 1 patch_document ∷ []

abbrev reading : Reading ℕ
reading = record { base_layer = layer_of (ascii "s") 0 base_document; value = merged_document }

reading_run : read_layers loader team team_red none two_layers ≡ ok (some reading)
unfolding read_layers read_on read_layer patched is_patch_document patch_ref text_property text_of
    at or_undefined property str_eq validate_against_schema check_json_schema merge_with_strategy
    deep_merge clone_onto clone_jsonish put_field set_field patch_body without_field provenance_ctx
    program
reading_run = refl

refs_run : check_patch_refs team_red two_layers ≡ ok tt
unfolding check_patch_refs patch_ref text_property text_of at or_undefined property str_eq
refs_run = refl

combine_layers-read_layers_example :
    (p : List (ProvenanceLayer ℕ)) × (combine_layers loader team team_red two_layers
      ≡ ok (merged_document, p))
    × (map place p ≡ map place_of two_layers)
    × (bases p ≡ 1)
combine_layers-read_layers_example =
    combine_layers-read_layers loader team team_red tt two_layers reading refs_run reading_run
