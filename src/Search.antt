-- ===== src/Search.antt =====
-- The index of `InMemorySearchStore` (packages/store/src/search/memory.ts) with the checks of a document
-- (packages/store/src/search/fields.ts). How a text is cut into tokens, by the language's Unicode tables,
-- is a parameter. The scores of a search are floating-point numbers and are not modelled.
pub mod Counts
pub mod Statistics
pub mod Runs
use mirk.Common.{
  ℕ, ◌+◌, ◌-◌, Bool, true, false, not, ◌&&◌, Option, none, some, List, [], ◌∷◌, ◌++◌, length, ◌==◌,
  map, if◌then◌else◌,
}
use mirk.Common.Result.{Result, ok, err, ◌>>=◌, ◌>>◌, require}
use mirk.Text.{Str, ascii, str_eq, compare_list}
use mirk.Sort.{sort}
use mirk.Map
use mirk.Map.{Map}
use mirk.Js.{str, Fields, end, entries, at}
use mirk.Graph.{includes}

pub data SearchInputError : Type 0 where
  text_and_fields missing_text_or_fields empty_fields non_string_field field_set_mismatch :
      SearchInputError

pub record SearchDocument (N : Type 0) : Type 0 where
  pub id : Str
  pub text : Option Str
  pub named_texts : Option (Fields N)
  pub meta : Option (Fields N)

-- `NormalizedSearchFields`
pub record NormalizedSearchFields : Type 0 where
  pub names : List Str
  pub values : Map Str

pub record IndexedDoc (N : Type 0) : Type 0 where
  pub id : Str
  pub meta : Fields N
  pub tf_by_field : Map (Map ℕ)
  pub dl : ℕ
  pub terms : List Str

pub record Collection (N : Type 0) : Type 0 where
  pub field_names : List Str
  pub docs : Map (IndexedDoc N)
  pub df : Map ℕ
  pub total_len : ℕ

-- `fields.sort` by `<` on strings, which compares their units.
unfoldable pub sorted_names : List Str → List Str
sorted_names names = sort compare_list names

module _ {N : Type 0} where
  -- The loop over the names, which refuses a value that is no string.
  unfoldable pub read_values : Fields N → List Str → Map Str → Result SearchInputError (Map Str)
  read_values fs [] values = ok values
  read_values fs (name ∷ names) values = elim (at name fs) [
    | str s ↦ read_values fs names (Map.set name s values)
    | _ ↦ err non_string_field
  ]

  unfoldable pub normalize_fields : Fields N → Result SearchInputError NormalizedSearchFields
  unfolding read_values sorted_names
  normalize_fields fs = do
    let names = sorted_names (map (λ e. e.0) (entries fs))
    require (not (length names == 0)) empty_fields
    values ← read_values fs names []
    ok (record { names = names; values = values })

  -- `normalizeSearchDocument(doc)`
  unfoldable pub normalize_document :
      Option Str → Option (Fields N) → Result SearchInputError NormalizedSearchFields
  unfolding normalize_fields
  normalize_document (some text) (some fs) = err text_and_fields
  normalize_document (some text) none =
      ok (record { names = ascii "text" ∷ []; values = (ascii "text", text) ∷ [] })
  normalize_document none none = err missing_text_or_fields
  normalize_document none (some fs) = normalize_fields fs

-- `assertSameSearchFields`, as a test.
unfoldable pub same_fields : List Str → List Str → Bool
same_fields [] [] = true
same_fields [] (b ∷ bs) = false
same_fields (a ∷ as') [] = false
same_fields (a ∷ as') (b ∷ bs) = str_eq a b && same_fields as' bs

abbrev pub or_zero : Option ℕ → ℕ
or_zero none = 0
or_zero (some n) = n

abbrev pub or_blank : Option Str → Str
or_blank none = []
or_blank (some s) = s

abbrev pub or_end : {N : Type 0} → Option (Fields N) → Fields N
or_end none = end
or_end (some fs) = fs

-- `counts.set(term, (counts.get(term) ?? 0) + 1)`
unfoldable pub raise : Str → Map ℕ → Map ℕ
raise term counts = Map.set term (or_zero (Map.get term counts) + 1) counts

-- One round of the loop that takes a document's terms out of the counts.
unfoldable pub lower : Str → Map ℕ → Map ℕ
lower term counts =
    let next = or_zero (Map.get term counts) - 1 in
    if next == 0 then Map.remove term counts else Map.set term next counts

unfoldable pub raise_all : List Str → Map ℕ → Map ℕ
unfolding raise
raise_all [] counts = counts
raise_all (t ∷ ts) counts = raise_all ts (raise t counts)

unfoldable pub lower_all : List Str → Map ℕ → Map ℕ
unfolding lower
lower_all [] counts = counts
lower_all (t ∷ ts) counts = lower_all ts (lower t counts)

-- `terms.add(token)`
unfoldable pub add_term : Str → List Str → List Str
unfolding includes
add_term t ts = if includes t ts then ts else ts ++ t ∷ []

unfoldable pub add_terms : List Str → List Str → List Str
unfolding add_term
add_terms [] terms = terms
add_terms (t ∷ tokens) terms = add_terms tokens (add_term t terms)

module _ (tokenize : Str → List Str) where
  -- The tokens of each field, counted by field, by term and together.
  unfoldable pub field_counts : List Str → Map Str → Map (Map ℕ) → Map (Map ℕ)
  unfolding raise_all
  field_counts [] values counts = counts
  field_counts (name ∷ names) values counts =
      field_counts names values
        (Map.set name (raise_all (tokenize (or_blank (Map.get name values))) []) counts)

  unfoldable pub field_terms : List Str → Map Str → List Str → List Str
  unfolding add_terms
  field_terms [] values terms = terms
  field_terms (name ∷ names) values terms =
      field_terms names values (add_terms (tokenize (or_blank (Map.get name values))) terms)

  unfoldable pub field_tokens : List Str → Map Str → ℕ
  field_tokens [] values = 0
  field_tokens (name ∷ names) values =
      length (tokenize (or_blank (Map.get name values))) + field_tokens names values

  module _ {N : Type 0} where
    unfoldable pub indexed_doc : Str → Option (Fields N) → List Str → Map Str → IndexedDoc N
    unfolding field_counts field_terms field_tokens
    indexed_doc id meta names values = record {
      id = id;
      meta = or_end meta;
      tf_by_field = field_counts names values [];
      dl = field_tokens names values;
      terms = field_terms names values [];
    }

module _ {N : Type 0} where
  unfoldable pub new_collection : List Str → Collection N
  new_collection names = record { field_names = names; docs = []; df = []; total_len = 0 }

  unfoldable pub take_out : Str → IndexedDoc N → Collection N → Collection N
  unfolding lower_all
  take_out id doc coll = record coll {
    docs = Map.remove id coll.docs;
    total_len = coll.total_len - doc.dl;
    df = lower_all doc.terms coll.df;
  }

  unfoldable pub put_in : Str → IndexedDoc N → Collection N → Collection N
  unfolding raise_all
  put_in id doc coll = record coll {
    total_len = coll.total_len + doc.dl;
    docs = Map.set id doc coll.docs;
    df = raise_all doc.terms coll.df;
  }

  -- `removeFromColl(coll, id)`
  unfoldable pub remove_from_coll : Str → Collection N → Bool × Collection N
  unfolding take_out
  remove_from_coll id coll = elim (Map.get id coll.docs) [
    | none ↦ (false, coll)
    | some doc ↦ (true, take_out id doc coll)
  ]

  abbrev pub coll_or_new : List Str → Option (Collection N) → Collection N
  coll_or_new names none = new_collection names
  coll_or_new names (some coll) = coll

  -- `remove(collection, id)`
  unfoldable pub remove : Str → Str → Map (Collection N) → Bool × Map (Collection N)
  unfolding remove_from_coll
  remove collection id store = elim (Map.get collection store) [
    | none ↦ (false, store)
    | some coll ↦
        ((remove_from_coll id coll).0, Map.set collection (remove_from_coll id coll).1 store)
  ]

module _ (tokenize : Str → List Str) {N : Type 0} where
  -- The rest of `index` for a collection whose fields are those of the document.
  unfoldable pub index_in : SearchDocument N → Map Str → Collection N → Collection N
  unfolding remove_from_coll put_in indexed_doc
  index_in doc values coll =
      put_in doc.id (indexed_doc tokenize doc.id doc.meta coll.field_names values)
        (remove_from_coll doc.id coll).1

  -- `index(collection, doc)`
  unfoldable pub index :
      Str
      → SearchDocument N
      → Map (Collection N)
      → Result SearchInputError (Unit {0}) × Map (Collection N)
  unfolding normalize_document new_collection index_in same_fields
  index collection doc store = elim (normalize_document doc.text doc.named_texts) [
    | err e ↦ (err e, store)
    | ok normalized ↦
        let coll = coll_or_new normalized.names (Map.get collection store) in
        if same_fields coll.field_names normalized.names
        then (ok tt, Map.set collection (index_in doc normalized.values coll) store)
        else (err field_set_mismatch, store)
  ]
