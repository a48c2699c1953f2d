-- ===== src/Search/Runs.antt =====
-- Runs of a search store (packages/store/src/search/memory.ts).
use mirk.Common.Result.{Result-cases}
use mirk.Common.{◌≡◌, some, List, [], ◌∷◌, inl, inr, Bool-cases}
use mirk.Text.{Str}
use mirk.Map
use mirk.Map.{Map}
use mirk.Search.{
  SearchDocument, Collection, normalize_document, same_fields, or_blank, add_terms, field_terms,
  indexed_doc, coll_or_new, remove_from_coll, remove, index_in, index,
}
use mirk.Search.Counts.{add_terms-NoRepeat}
use mirk.Graph.Distinct.{NoRepeat}
use mirk.Search.Statistics.{
  IsCounted, AllCounted, put_in-IsCounted, remove_from_coll-IsCounted, set-AllCounted,
  coll_or_new-IsCounted, remove-AllCounted,
}

-- A call that changes a search store.
pub data Call (N : Type 0) : Type 0 where
  index_call : Str → SearchDocument N → Call N
  remove_call : Str → Str → Call N

field_terms-NoRepeat :
    (tokenize : Str → List Str) (names : List Str) (values : Map Str) (terms : List Str)
    → NoRepeat terms
    → NoRepeat (field_terms tokenize names values terms)
unfolding field_terms
field_terms-NoRepeat tokenize [] values terms h = h
field_terms-NoRepeat tokenize (name ∷ names) values terms h =
    field_terms-NoRepeat tokenize names values
      (add_terms (tokenize (or_blank (Map.get name values))) terms)
      (add_terms-NoRepeat (tokenize (or_blank (Map.get name values))) terms h)

module _ (tokenize : Str → List Str) {N : Type 0} where
  index_in-IsCounted :
      (doc : SearchDocument N) (values : Map Str) (coll : Collection N)
      → IsCounted coll
      → IsCounted (index_in tokenize doc values coll)
  unfolding index_in indexed_doc
  index_in-IsCounted doc values coll inv =
      let (kept, absent) = remove_from_coll-IsCounted doc.id coll inv in
      put_in-IsCounted doc.id (indexed_doc tokenize doc.id doc.meta coll.field_names values)
        (remove_from_coll doc.id coll).1 absent
        (field_terms-NoRepeat tokenize coll.field_names values [] tt) kept

  index-AllCounted :
      (c : Str) (doc : SearchDocument N) (store : Map (Collection N))
      → AllCounted store
      → AllCounted (index tokenize c doc store).1
  unfolding index
  index-AllCounted c doc store inv =
      elim (Result-cases (normalize_document doc.text doc.named_texts)) [
        | inr (e, f) ↦ rw (f, index) inv
        | inl (normalized, f) ↦
            let coll = coll_or_new normalized.names (Map.get c store) in
            elim (Bool-cases (same_fields coll.field_names normalized.names)) [
              | inl s ↦
                  rw (f, index)
                    (rw (s, index)
                      (set-AllCounted c (index_in tokenize doc normalized.values coll) store
                        (index_in-IsCounted doc normalized.values coll
                          (coll_or_new-IsCounted c normalized.names store inv))
                        inv))
              | inr s ↦ rw (f, index) (rw (s, index) inv)
            ]
      ]

  -- The store after the calls, whatever each of them answers.
  abbrev pub run_calls : List (Call N) → Map (Collection N) → Map (Collection N)
  run_calls [] store = store
  run_calls (index_call c doc ∷ calls) store = run_calls calls (index tokenize c doc store).1
  run_calls (remove_call c id ∷ calls) store = run_calls calls (remove c id store).1

  run_calls-AllCounted :
      (calls : List (Call N)) (store : Map (Collection N))
      → AllCounted store
      → AllCounted (run_calls calls store)
  run_calls-AllCounted [] store inv = inv
  run_calls-AllCounted (index_call c doc ∷ calls) store inv =
      run_calls-AllCounted calls (index tokenize c doc store).1 (index-AllCounted c doc store inv)
  run_calls-AllCounted (remove_call c id ∷ calls) store inv =
      run_calls-AllCounted calls (remove c id store).1 (remove-AllCounted c id store inv)

  -- In every collection of a search store that indexing and removals fill, whatever the documents
  -- are and however texts are cut into tokens, the count of every term is the number of documents
  -- that have it, the total length is the sum of their lengths, and no id and no term of a
  -- document is there twice.
  pub run_calls-IsCounted :
      (calls : List (Call N)) (c : Str) (coll : Collection N)
      → Map.get c (run_calls calls []) ≡ some coll
      → IsCounted coll
  run_calls-IsCounted calls c coll h =
      run_calls-AllCounted calls [] (λ j found e. unfold Map.get in cc) c coll h
