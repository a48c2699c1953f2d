-- ===== src/Fixtures/Documents.antt =====
-- The fixtures that the candidate files of a type hold (packages/fixtures/src/loader.ts): a file is
-- one fixture, or a map of them by their ids.
use mirk.Common.{
  Bool, true, false, ◌&&◌, ◌||◌, not, Option, none, some, List, [], ◌∷◌, ◌++◌, if◌then◌else◌,
}
use mirk.Common.Result.{Result, ok, err}
use mirk.Text.{Str, is_empty, str_eq}
use mirk.Js.{Number, Js, str, obj, instance_of, Fields, end, field, at, is_undefined}
use mirk.Graph.{includes}
use mirk.Fixtures.Refs.{format_ref, text_of}
use mirk.Fixtures.Layering.{is_patch_document, spread}
use mirk.Fixtures.Shape.{
  Code, invalid_map_document, invalid_map_fixture, map_id_mismatch, duplicate_map_fixture,
  LoadError, TypeDefinition, Loader, failure,
}
use mirk.Fixtures.Sources.{
  Candidate, ParsedLayer, Caches, Load, join_nul, is_wanted, find_all_file_candidates,
  find_candidates, read_and_parse,
}

-- A chain of calls that may throw: the caches keep what the calls before an error left there.
abbrev pub go_on :
    {N A B : Type 0}
    → (A → Load N B)
    → Result LoadError A × Caches N
    → Result LoadError B × Caches N
go_on next (ok a, caches) = next a caches
go_on next (err e, caches) = (err e, caches)

infixl 5 ◌>>=◌
abbrev pub ◌>>=◌ : {N A B : Type 0} → Load N A → (A → Load N B) → Load N B
◌>>=◌ m next caches = go_on next (m caches)

-- A part that leaves the caches alone.
abbrev pub pure : {N A : Type 0} → Result LoadError A → Load N A
pure r caches = (r, caches)

-- `${path}#${id}`
unfoldable pub fragment : Str → Str → Str
fragment path id = path ++ b'#' ∷ id

module _ {N : Type 0} where
  -- The error about one fixture of a map document.
  unfoldable pub map_failure : Code → TypeDefinition N → Candidate N → Str → LoadError
  unfolding format_ref fragment failure
  map_failure code def c id =
      failure code (some (format_ref def.type_name id)) (some c.layer.source.id)
        (some (fragment c.entry.relative_path id))

  -- `explicitId !== undefined && explicitId !== id` fails.
  unfoldable pub names_id : Str → Js N → Bool
  unfolding text_of str_eq is_undefined
  names_id id v = is_undefined v || elim (text_of v) [ none ↦ false | some t ↦ str_eq t id ]

  -- The id is injected where it is missing, but not into a patch.
  unfoldable pub inject_id : Str → Str → Js N → Fields N → Js N
  unfolding is_undefined at is_patch_document spread
  inject_id id_field id v fs =
      if not (is_patch_document v) && is_undefined (at id_field fs)
      then obj (spread (field id_field (str id) end) fs)
      else v

  -- The properties of a value that is an object and no array.
  unfoldable pub object_fields : Js N → Option (Fields N)
  object_fields (obj fs) = some fs
  object_fields (instance_of fs) = some fs
  object_fields _ = none

  -- The value of one member of a map document.
  unfoldable pub member_value :
      TypeDefinition N → Option Str → Candidate N → Str → Js N → Result LoadError (Js N)
  unfolding object_fields names_id inject_id map_failure at
  member_value def none c id v = ok v
  member_value def (some id_field) c id v =
      if is_empty id_field then ok v else elim (object_fields v) [
        | none ↦ err (map_failure invalid_map_fixture def c id)
        | some fs ↦
            if names_id id (at id_field fs)
            then ok (inject_id id_field id v fs)
            else err (map_failure map_id_mismatch def c id)
      ]

  -- The loop over the members.
  unfoldable pub expand_members :
      TypeDefinition N
      → Option Str
      → Candidate N
      → Fields N
      → Result LoadError (List (ParsedLayer N))
  unfolding member_value fragment
  expand_members def id_field c end = ok []
  expand_members def id_field c (field id v fs) =
      let rest = expand_members def id_field c fs in
      elim (member_value def id_field c id v) [
        | err e ↦ err e
        | ok w ↦ elim rest [
          | err e ↦ err e
          | ok ls ↦ ok (
              record {
                layer = c.layer;
                id = id;
                parsed = w;
                source_path = fragment c.entry.relative_path id;
              }
              ∷ ls)
        ]
      ]

  -- The layers in a parsed document: itself, or its members.
  unfoldable pub expand_parsed :
      TypeDefinition N
      → Option (Option Str)
      → Candidate N
      → Js N
      → Result LoadError (List (ParsedLayer N))
  unfolding object_fields expand_members failure
  expand_parsed def none c v = ok (
      record { layer = c.layer; id = c.file_id; parsed = v; source_path = c.entry.relative_path }
      ∷ [])
  expand_parsed def (some id_field) c v = elim (object_fields v) [
    | none ↦
        err
          (failure invalid_map_document none (some c.layer.source.id) (some c.entry.relative_path))
    | some fs ↦ expand_members def id_field c fs
  ]

  -- `expandMapDocument(def, candidate)`
  unfoldable pub expand_map_document :
      Loader N → TypeDefinition N → Candidate N → Load N (List (ParsedLayer N))
  unfolding read_and_parse expand_parsed
  expand_map_document loader def c = do
    v ← read_and_parse loader c
    pure (expand_parsed def def.document c v)

  -- `targetId ? … : …`
  unfoldable pub candidates_for :
      Loader N → TypeDefinition N → Option Str → List Str → Result LoadError (List (Candidate N))
  unfolding find_candidates find_all_file_candidates
  candidates_for loader def none skip = find_all_file_candidates loader def skip
  candidates_for loader def (some []) skip = find_all_file_candidates loader def skip
  candidates_for loader def (some (u ∷ id)) skip = find_candidates loader def (u ∷ id) skip

module _ {N : Type 0} ⦃number : Number N⦄ where
  -- The key of `seen` in `parsedCandidates`.
  unfoldable pub layer_key : ParsedLayer N → Str
  unfolding join_nul
  layer_key l =
      join_nul (l.layer.source.id ∷ l.layer.name ∷ number.text l.layer.priority ∷ l.id ∷ [])

  -- The inner loop: the layers with the wanted id, and all the keys seen.
  unfoldable pub add_layers :
      TypeDefinition N
      → Option Str
      → List Str
      → List (ParsedLayer N)
      → Result LoadError (List (ParsedLayer N) × List Str)
  unfolding is_wanted includes layer_key format_ref failure
  add_layers def target seen [] = ok ([], seen)
  add_layers def target seen (l ∷ ls) = elim (is_wanted target l.id) [
    | false ↦ add_layers def target seen ls
    | true ↦ elim (includes (layer_key l) seen) [
      | true ↦ err (
          failure duplicate_map_fixture (some (format_ref def.type_name l.id))
            (some l.layer.source.id) (some l.source_path))
      | false ↦ elim (add_layers def target (layer_key l ∷ seen) ls) [
        | err e ↦ err e
        | ok (kept, seen') ↦ ok (l ∷ kept, seen')
      ]
    ]
  ]

  -- The outer loop.
  unfoldable pub collect_layers :
      Loader N
      → TypeDefinition N
      → Option Str
      → List Str
      → List (Candidate N)
      → Load N (List (ParsedLayer N))
  unfolding expand_map_document add_layers
  collect_layers loader def target seen [] = pure (ok [])
  collect_layers loader def target seen (c ∷ cs) = do
    layers ← expand_map_document loader def c
    added ← pure (add_layers def target seen layers)
    rest ← collect_layers loader def target added.1 cs
    pure (ok (added.0 ++ rest))

  -- `parsedCandidates(type, targetId, skipSources)` with the definition of the type.
  unfoldable pub parsed_candidates :
      Loader N → TypeDefinition N → Option Str → List Str → Load N (List (ParsedLayer N))
  unfolding collect_layers candidates_for
  parsed_candidates loader def target skip = do
    candidates ← pure (candidates_for loader def target skip)
    collect_layers loader def target [] candidates
