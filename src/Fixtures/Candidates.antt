-- ===== src/Fixtures/Candidates.antt =====
-- The candidates that a loader reads are files of its sources (packages/fixtures/src/loader.ts).
use mirk.Common.{
  ◌≡◌, refl, subst, Option, none, some, List, [], ◌∷◌, Member, All, All-append, inl, inr,
  Bool-cases, Option-cases,
}
use mirk.Common.Result.{Result, ok, err, Result-cases}
use mirk.Text.{Str}
use mirk.Graph.{includes}
use mirk.Fixtures.Shape.{LoadError, Entry, Layer, TypeDefinition, Loader}
use mirk.Fixtures.Sources.{
  Candidate, entry_candidates, source_candidates, find_all_file_candidates, find_candidates,
  match_entry, file_skip_key,
}
use mirk.Fixtures.Documents.{candidates_for}
use mirk.Fixtures.Keys.{NoNul, IsClean, AreDistinct}

-- The sources of a loader have ids of their own, and neither these nor the paths and locators of
-- their entries have a NUL.
pub record AreApart {N : Type 0} (layers : List (Layer N)) : Type 0 where
  pub distinct : AreDistinct layers
  pub id : (a : Layer N) → Member a layers → NoNul a.source.id
  pub entry :
      (a : Layer N) (es : List Entry) (e : Entry)
      → Member a layers
      → a.source.list ≡ some es
      → Member e es
      → NoNul e.locator × NoNul e.relative_path

module _ {N : Type 0} (layers : List (Layer N)) where
  -- A file of one of the sources.
  pub record IsCandidate (c : Candidate N) : Type 0 where
    pub layer : Member c.layer layers
    pub clean : IsClean c

module _ {N : Type 0} (loader : Loader N) (apart : AreApart loader.layers) where
  entry_candidates-IsCandidate :
      (def : TypeDefinition N) (target : Option Str) (skip : List Str) (l : Layer N)
      (es es' : List Entry)
      → Member l loader.layers
      → l.source.list ≡ some es'
      → ((e : Entry) → Member e es → Member e es')
      → All (IsCandidate loader.layers) (entry_candidates loader def target skip l es)
  unfolding entry_candidates
  entry_candidates-IsCandidate def target skip l [] es' m listed sub = tt
  entry_candidates-IsCandidate def target skip l (e ∷ es) es' m listed sub =
      let rest =
        entry_candidates-IsCandidate def target skip l es es' m listed (λ d md. sub d (inr md)) in
      let (locator, path) = apart.entry l es' e m listed (sub e (inl refl)) in
      elim (Option-cases (match_entry loader def e target)) [
        | inl n ↦ rw (n, entry_candidates) rest
        | inr (f, s) ↦
            elim (Bool-cases (includes (file_skip_key l.source.id e.relative_path) skip)) [
              | inl skipped ↦ rw (s, entry_candidates) (rw skipped rest)
              | inr kept ↦
                  rw (s, entry_candidates)
                    (rw kept (
                      record {
                        layer = m;
                        clean = record { id = apart.id l m; locator = locator; path = path };
                      },
                      rest,
                    ))
            ]
      ]

  -- Every candidate of an answer is one.
  abbrev pub AllCandidates : Result LoadError (List (Candidate N)) → Type 0
  AllCandidates (err e) = Unit {0}
  AllCandidates (ok cs) = All (IsCandidate loader.layers) cs

  source_candidates-IsCandidate :
      (def : TypeDefinition N) (target : Option Str) (skip : List Str) (ls : List (Layer N))
      → ((l : Layer N) → Member l ls → Member l loader.layers)
      → AllCandidates (source_candidates loader def target skip ls)
  unfolding source_candidates
  source_candidates-IsCandidate def target skip [] sub = tt
  source_candidates-IsCandidate def target skip (l ∷ ls) sub =
      let rest = source_candidates-IsCandidate def target skip ls (λ k m. sub k (inr m)) in
      elim (Bool-cases (includes l.source.id skip)) [
        | inl skipped ↦ rw (skipped, source_candidates) rest
        | inr used ↦ elim (Option-cases l.source.list) [
          | inl n ↦ rw (used, source_candidates) (rw n tt)
          | inr (es, listed) ↦ elim (Result-cases (source_candidates loader def target skip ls)) [
            | inl (cs, e) ↦
                rw (used, source_candidates)
                  (rw listed (
                    rw e (
                      All-append (IsCandidate loader.layers)
                        (entry_candidates loader def target skip l es) cs
                        (entry_candidates-IsCandidate def target skip l es es (sub l (inl refl))
                          listed (λ d m. m))
                        (subst AllCandidates e rest))))
            | inr (f, e) ↦ rw (used, source_candidates) (rw listed (rw e tt))
          ]
        ]
      ]

  pub candidates_for-IsCandidate :
      (def : TypeDefinition N) (target : Option Str) (skip : List Str)
      → AllCandidates (candidates_for loader def target skip)
  unfolding candidates_for find_candidates find_all_file_candidates
  candidates_for-IsCandidate def none skip =
      source_candidates-IsCandidate def none skip loader.layers (λ l m. m)
  candidates_for-IsCandidate def (some []) skip =
      source_candidates-IsCandidate def none skip loader.layers (λ l m. m)
  candidates_for-IsCandidate def (some (u ∷ id)) skip =
      source_candidates-IsCandidate def _ skip loader.layers (λ l m. m)
