-- ===== src/Fixtures/Sources.antt =====
-- The files of a fixture type and their documents (packages/fixtures/src/loader.ts). The sources are
-- parameters and answer the same throughout; what is parsed is kept in a cache.
use mirk.Common.{
  ◌-◌, Bool, true, ◌&&◌, ◌||◌, not, Option, none, some, List, [], ◌∷◌, ◌++◌, drop, take, length,
  leb, if◌then◌else◌,
}
use mirk.Common.Result.{Result, ok, err}
use mirk.Text.{Str, ascii, is_empty, str_eq}
use mirk.Memory.Values.{starts_with}
use mirk.Map
use mirk.Map.{Map}
use mirk.Js.{Js}
use mirk.Graph.{includes}
use mirk.Fixtures.Refs.{includes_unit}
use mirk.Fixtures.Shape.{
  unknown_type, source_list_failed, no_parser, source_read_failed, parse_failed, LoadError, Entry,
  Layer, TypeDefinition, Loaded, Loader, failure,
}

-- `FileCandidate`
pub record Candidate (N : Type 0) : Type 0 where
  pub layer : Layer N
  pub entry : Entry
  pub ext : Str
  pub file_id : Str

-- `ParsedLayer`, with the layer of its candidate.
pub record ParsedLayer (N : Type 0) : Type 0 where
  pub layer : Layer N
  pub id : Str
  pub parsed : Js N
  pub source_path : Str

-- `rawCache`, `materialCache` and `parsedDocumentCache`
pub record Caches (N : Type 0) : Type 0 where
  pub raw : Map (Loaded N)
  pub material : Map (Js N)
  pub parsed : Map (Js N)

abbrev pub no_caches : {N : Type 0} → Caches N
no_caches = record { raw = []; material = []; parsed = [] }

-- A call that may throw, with the caches before and after it.
abbrev pub Load : Type 0 → Type 0 → Type 0
Load N A = Caches N → Result LoadError A × Caches N

-- `texts.join("\u0000")`
unfoldable pub join_nul : List Str → Str
join_nul [] = []
join_nul (t ∷ []) = t
join_nul (t ∷ u ∷ ts) = t ++ 0 ∷ join_nul (u ∷ ts)

-- `fileSkipKey(sourceId, relativePath)`
unfoldable pub file_skip_key : Str → Str → Str
file_skip_key source_id relative_path = source_id ++ 0 ∷ relative_path

unfoldable pub ends_with : Str → Str → Bool
ends_with suffix s =
    leb (length suffix) (length s) && str_eq (drop (length s - length suffix) s) suffix

-- `exts.find((candidate) => tail.endsWith(candidate))`
unfoldable pub find_ext : Str → List Str → Option Str
unfolding ends_with
find_ext tail [] = none
find_ext tail (e ∷ es) = if ends_with e tail then some e else find_ext tail es

-- `targetId !== undefined && id !== targetId` fails.
unfoldable pub is_wanted : Option Str → Str → Bool
is_wanted none id = true
is_wanted (some target) id = str_eq id target

-- The id and the extension of a path below the prefix.
unfoldable pub match_tail : List Str → Str → Option Str → Option (Str × Str)
unfolding find_ext includes_unit is_wanted
match_tail exts tail target = if includes_unit b'/' tail then none else elim (find_ext tail exts) [
  | none ↦ none
  | some ext ↦
      let id = take (length tail - length ext) tail in
      if is_empty ext || is_empty id || not (is_wanted target id) then none else some (id, ext)
]

module _ {N : Type 0} where
  -- `defOrThrow(type, refForError)`
  unfoldable pub def_or_throw : Loader N → Str → Str → Result LoadError (TypeDefinition N)
  unfolding Map.get failure
  def_or_throw loader type_name ref = elim (Map.get type_name loader.registry) [
    | none ↦ err (failure unknown_type (some ref) none none)
    | some def ↦ ok def
  ]

  -- `extensionsFor(def)`
  unfoldable pub extensions_for : Loader N → TypeDefinition N → List Str
  unfolding Map.keys
  extensions_for loader def = elim def.extensions [
    | none ↦ Map.keys loader.parsers
    | some [] ↦ Map.keys loader.parsers
    | some (e ∷ es) ↦ e ∷ es
  ]

  -- `dirPrefix(def)`
  unfoldable pub dir_prefix : TypeDefinition N → Str
  unfolding ends_with str_eq
  dir_prefix def =
      if is_empty def.directory || str_eq def.directory (ascii "/")
      then []
      else if ends_with (ascii "/") def.directory
      then def.directory
      else def.directory ++ ascii "/"

  -- `matchEntry(def, entry, targetId)`
  unfoldable pub match_entry : Loader N → TypeDefinition N → Entry → Option Str → Option (Str × Str)
  unfolding dir_prefix extensions_for match_tail starts_with
  match_entry loader def entry target =
      let prefix = dir_prefix def in
      if starts_with prefix entry.relative_path
      then match_tail (extensions_for loader def) (drop (length prefix) entry.relative_path) target
      else none

  -- The candidates among the entries of one source.
  unfoldable pub entry_candidates :
      Loader N
      → TypeDefinition N
      → Option Str
      → List Str
      → Layer N
      → List Entry
      → List (Candidate N)
  unfolding match_entry includes file_skip_key
  entry_candidates loader def target skip layer [] = []
  entry_candidates loader def target skip layer (e ∷ es) =
      let rest = entry_candidates loader def target skip layer es in
      elim (match_entry loader def e target) [
        | none ↦ rest
        | some (id, ext) ↦
            if includes (file_skip_key layer.source.id e.relative_path) skip
            then rest
            else record { layer = layer; entry = e; ext = ext; file_id = id } ∷ rest
      ]

  -- The loop over the sources of `findCandidates` and of `findAllFileCandidates`.
  unfoldable pub source_candidates :
      Loader N
      → TypeDefinition N
      → Option Str
      → List Str
      → List (Layer N)
      → Result LoadError (List (Candidate N))
  unfolding entry_candidates includes failure
  source_candidates loader def target skip [] = ok []
  source_candidates loader def target skip (l ∷ ls) =
      let rest = source_candidates loader def target skip ls in
      if includes l.source.id skip then rest else elim l.source.list [
        | none ↦ err (failure source_list_failed none (some l.source.id) none)
        | some es ↦ elim rest [
          | err e ↦ err e
          | ok found ↦ ok (entry_candidates loader def target skip l es ++ found)
        ]
      ]

  -- `findAllFileCandidates(def, skipSources)`
  unfoldable pub find_all_file_candidates :
      Loader N → TypeDefinition N → List Str → Result LoadError (List (Candidate N))
  unfolding source_candidates
  find_all_file_candidates loader def skip = source_candidates loader def none skip loader.layers

  -- `findCandidates(type, id, skipSources)` with the definition of the type: a map document can
  -- hold any id.
  unfoldable pub find_candidates :
      Loader N → TypeDefinition N → Str → List Str → Result LoadError (List (Candidate N))
  unfolding source_candidates
  find_candidates loader def id skip =
      source_candidates loader def (elim def.document [ none ↦ some id | some id_field ↦ none ])
        skip loader.layers

  -- The key of `parsedDocumentCache`.
  unfoldable pub document_key : Candidate N → Str
  unfolding join_nul
  document_key c =
      join_nul (c.layer.source.id ∷ c.entry.locator ∷ c.entry.relative_path ∷ c.ext ∷ [])

  -- `readAndParse` of a document that is not in the cache.
  unfoldable pub read_and_parse_fresh : Loader N → Candidate N → Result LoadError (Js N)
  unfolding Map.get failure
  read_and_parse_fresh loader c = elim (Map.get c.ext loader.parsers) [
    | none ↦ err (failure no_parser none (some c.layer.source.id) (some c.entry.relative_path))
    | some parse ↦ elim (c.layer.source.read c.entry) [
      | none ↦
          err
            (failure source_read_failed none (some c.layer.source.id) (some c.entry.relative_path))
      | some content ↦ elim (parse content) [
        | none ↦
            err (failure parse_failed none (some c.layer.source.id) (some c.entry.relative_path))
        | some v ↦ ok v
      ]
    ]
  ]

  unfoldable pub keep_document : Candidate N → Result LoadError (Js N) → Load N (Js N)
  unfolding Map.set document_key
  keep_document c (err e) caches = (err e, caches)
  keep_document c (ok v) caches =
      (ok v, record caches { parsed = Map.set (document_key c) v caches.parsed })

  -- `readAndParse(candidate)`
  unfoldable pub read_and_parse : Loader N → Candidate N → Load N (Js N)
  unfolding Map.get document_key keep_document read_and_parse_fresh
  read_and_parse loader c caches = elim (Map.get (document_key c) caches.parsed) [
    | some v ↦ (ok v, caches)
    | none ↦ keep_document c (read_and_parse_fresh loader c) caches
  ]
