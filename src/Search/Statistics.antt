-- ===== src/Search/Statistics.antt =====
-- The statistics of a search collection are those of its documents
-- (packages/store/src/search/memory.ts).
use mirk.Common.{
  ℕ, ◌≡◌, refl, ap, ◌∙◌, subst, none, some, List, arith, inl, inr, Bool-cases, Option-cases,
  if◌then◌else◌,
}
use mirk.Text.{Str, str_eq}
use mirk.Text.Units.{str_eq_refl}
use mirk.Map
use mirk.Map.{Map}
use mirk.Map.Laws.{get-set, get-remove}
use mirk.Graph.{includes}
use mirk.Search.{
  IndexedDoc, Collection, new_collection, coll_or_new, take_out, put_in, remove_from_coll, remove,
}
use mirk.Search.Counts.{
  count_of, one_if, count_of-raise_all, count_of-lower_all, weigh, names_of, remove-NoRepeat,
  set-NoRepeat, weigh-set, weigh-remove,
}
use mirk.Graph.Distinct.{NoRepeat}

module _ {N : Type 0} where
  -- The documents that have the term, and the length of all documents.
  abbrev pub documents_with : Str → Map (IndexedDoc N) → ℕ
  documents_with t docs = weigh (λ d. one_if (includes t d.terms)) docs

  abbrev pub length_of_all : Map (IndexedDoc N) → ℕ
  length_of_all docs = weigh (λ d. d.dl) docs

  -- For every term the collection counts the documents that have it, and it knows their length; no id and no
  -- term of a document is there twice.
  pub record IsCounted (coll : Collection N) : Type 0 where
    pub counts : (t : Str) → count_of t coll.df ≡ documents_with t coll.docs
    pub size : coll.total_len ≡ length_of_all coll.docs
    pub once : NoRepeat (names_of coll.docs)
    pub terms_once : (k : Str) (d : IndexedDoc N) → Map.get k coll.docs ≡ some d → NoRepeat d.terms

  take_out-IsCounted :
      (id : Str) (doc : IndexedDoc N) (coll : Collection N)
      → Map.get id coll.docs ≡ some doc
      → IsCounted coll
      → IsCounted (take_out id doc coll)
  unfolding take_out
  take_out-IsCounted id doc coll e inv = record {
    counts = λ t.
        let gone = weigh-remove (λ d. one_if (includes t d.terms)) id doc coll.docs inv.once e in
        let lowered = count_of-lower_all doc.terms t coll.df (inv.terms_once id doc e) in
        ground (arith, lowered, gone, inv.counts t);
    size =
        let gone = weigh-remove (λ d. d.dl) id doc coll.docs inv.once e in
        omega (arith, gone, inv.size);
    once = remove-NoRepeat id coll.docs inv.once;
    terms_once = λ k d h. inv.terms_once k d (ground (arith, get-remove id k coll.docs));
  }

  pub put_in-IsCounted :
      (id : Str) (doc : IndexedDoc N) (coll : Collection N)
      → Map.get id coll.docs ≡ none
      → NoRepeat doc.terms
      → IsCounted coll
      → IsCounted (put_in id doc coll)
  unfolding put_in
  put_in-IsCounted id doc coll e fresh inv = record {
    counts = λ t.
        let more = weigh-set (λ d. one_if (includes t d.terms)) id doc coll.docs e in
        let raised = count_of-raise_all doc.terms t coll.df fresh in
        ground (arith, raised, more, inv.counts t);
    size = let more = weigh-set (λ d. d.dl) id doc coll.docs e in omega (arith, more, inv.size);
    once = set-NoRepeat id doc coll.docs inv.once;
    terms_once = λ k d h. elim (Bool-cases (str_eq id k)) [
      | inl s ↦
          let same : doc ≡ d = ground (arith, get-set id k doc coll.docs) in
          subst (λ x. NoRepeat x.terms) same fresh
      | inr s ↦ inv.terms_once k d (ground (arith, get-set id k doc coll.docs))
    ];
  }

  -- After a removal the document is not there.
  pub remove_from_coll-IsCounted :
      (id : Str) (coll : Collection N)
      → IsCounted coll
      → IsCounted (remove_from_coll id coll).1
        × (Map.get id (remove_from_coll id coll).1.docs ≡ none)
  unfolding remove_from_coll take_out
  remove_from_coll-IsCounted id coll inv = elim (Option-cases (Map.get id coll.docs)) [
    | inl e ↦ rw (e, remove_from_coll) (inv, e)
    | inr (doc, e) ↦
        rw (e, remove_from_coll)
          (
            take_out-IsCounted id doc coll e inv,
            get-remove id id coll.docs
                ∙ ap (λ b. if b then none else Map.get id coll.docs) (str_eq_refl id),
          )
  ]

  new_collection-IsCounted : (names : List Str) → IsCounted (new_collection names)
  unfolding new_collection Map.get
  new_collection-IsCounted names = record {
    counts = λ t. refl;
    size = refl;
    once = tt;
    terms_once = λ k d h. cc;
  }

  -- Every collection of the store is counted.
  abbrev pub AllCounted : Map (Collection N) → Type 0
  AllCounted store = (c : Str) (coll : Collection N) → Map.get c store ≡ some coll → IsCounted coll

  pub set-AllCounted :
      (c : Str) (coll : Collection N) (store : Map (Collection N))
      → IsCounted coll
      → AllCounted store
      → AllCounted (Map.set c coll store)
  set-AllCounted c coll store new inv j found h = elim (Bool-cases (str_eq c j)) [
    | inl s ↦
        let same : coll ≡ found = ground (arith, get-set c j coll store) in subst IsCounted same new
    | inr s ↦ inv j found (ground (arith, get-set c j coll store))
  ]

  pub coll_or_new-IsCounted :
      (c : Str) (names : List Str) (store : Map (Collection N))
      → AllCounted store
      → IsCounted (coll_or_new names (Map.get c store))
  coll_or_new-IsCounted c names store inv = elim (Option-cases (Map.get c store)) [
    | inl e ↦ rw e (new_collection-IsCounted names)
    | inr (coll, e) ↦ rw e (inv c coll e)
  ]

  pub remove-AllCounted :
      (c id : Str) (store : Map (Collection N))
      → AllCounted store
      → AllCounted (remove c id store).1
  unfolding remove
  remove-AllCounted c id store inv = elim (Option-cases (Map.get c store)) [
    | inl e ↦ rw (e, remove) inv
    | inr (coll, e) ↦
        rw (e, remove)
          (set-AllCounted c (remove_from_coll id coll).1 store
            (remove_from_coll-IsCounted id coll (inv c coll e)).0 inv)
  ]
