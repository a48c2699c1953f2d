-- ===== src/Tests/Indexes.antt =====
-- The theorem on search statistics at a store with one document.
use mirk.Common.{ℕ, ◌≡◌, refl, none, some, List, [], ◌∷◌}
use mirk.Text.{Str, ascii, str_eq}
use mirk.Map
use mirk.Js.{end}
use mirk.Graph.{includes}
use mirk.Search.{
  SearchDocument, Collection, index, index_in, normalize_document, new_collection, same_fields,
  remove_from_coll, put_in, indexed_doc, field_counts, field_terms, field_tokens, add_terms,
  add_term, raise_all, raise, take_out, lower_all, lower,
}
use mirk.Search.Statistics.{IsCounted}
use mirk.Search.Runs.{Call, index_call, run_calls, run_calls-IsCounted}

-- Every unit is a token.
abbrev units : Str → List Str
units [] = []
units (u ∷ s) = (u ∷ []) ∷ units s

abbrev document : Str → SearchDocument ℕ
document t = record { id = ascii "d"; text = some t; named_texts = none; meta = none }

-- The document is indexed twice: its second text replaces the first.
abbrev two_calls : List (Call ℕ)
two_calls =
    index_call (ascii "c") (document (ascii "ab"))
    ∷ index_call (ascii "c") (document (ascii "bb"))
    ∷ []

abbrev one_doc : Collection ℕ
one_doc = record {
  field_names = ascii "text" ∷ [];
  docs =
      (
        ascii "d",
        record {
          id = ascii "d";
          meta = end;
          tf_by_field = (ascii "text", (ascii "b", 2) ∷ []) ∷ [];
          dl = 2;
          terms = ascii "b" ∷ [];
        },
      )
      ∷ [];
  df = (ascii "b", 1) ∷ [];
  total_len = 2;
}

two_calls_run : Map.get (ascii "c") (run_calls units two_calls []) ≡ some one_doc
unfolding Map.get Map.set Map.remove str_eq includes index index_in normalize_document
    new_collection same_fields remove_from_coll put_in indexed_doc field_counts field_terms
    field_tokens add_terms add_term raise_all raise take_out lower_all lower
two_calls_run = refl

run_calls-IsCounted_example : IsCounted one_doc
run_calls-IsCounted_example = run_calls-IsCounted units two_calls (ascii "c") one_doc two_calls_run
