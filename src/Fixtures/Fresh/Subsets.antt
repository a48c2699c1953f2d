-- ===== src/Fixtures/Fresh/Subsets.antt =====
-- The candidates for one id are among the candidates of its type (packages/fixtures/src/loader.ts).
use mirk.Common.{
  ◌≡◌, refl, subst, Bool, true, false, Option, none, some, List, [], ◌∷◌, ◌++◌, arith, Member, inl,
  inr, Option-cases,
}
use mirk.Common.Result.{Result, ok, err}
use mirk.Text.{Str}
use mirk.Graph.{includes}
use mirk.Fixtures.Shape.{LoadError, Entry, Layer, TypeDefinition, Loader}
use mirk.Fixtures.Sources.{
  Candidate, entry_candidates, source_candidates, find_all_file_candidates, find_candidates,
  match_entry,
}
use mirk.Fixtures.Documents.{candidates_for}
use mirk.Common.{length}
use mirk.Common.{Member-append, if◌then◌else◌, drop}
use mirk.Fixtures.Shape.{failure, source_list_failed}
use mirk.Fixtures.Sources.{match_tail, is_wanted, extensions_for, dir_prefix}
use mirk.Memory.Values.{starts_with}

-- What matches with a wanted id matches without.
match_tail-none :
    (exts : List Str) (tail target : Str) (p : Str × Str)
    → match_tail exts tail (some target) ≡ some p
    → match_tail exts tail none ≡ some p
unfolding match_tail is_wanted
match_tail-none exts tail target p h = ground arith

under :
    {p : Str × Str} (b : Bool) (x y : Option (Str × Str))
    → (x ≡ some p → y ≡ some p)
    → (if b then x else none) ≡ some p
    → (if b then y else none) ≡ some p
under true x y f h = f h
under false x y f h = h

module _ {N : Type 0} (loader : Loader N) where
  match_entry-none :
      (def : TypeDefinition N) (e : Entry) (target : Option Str) (p : Str × Str)
      → match_entry loader def e target ≡ some p
      → match_entry loader def e none ≡ some p
  unfolding match_entry
  match_entry-none def e none p h = h
  match_entry-none def e (some target) p h =
      under (starts_with (dir_prefix def) e.relative_path) _ _
        (match_tail-none (extensions_for loader def)
          (drop (length (dir_prefix def)) e.relative_path) target p)
        h

  -- The candidate of an entry that matches, before the others.
  picked : Layer N → Entry → Option (Str × Str) → List (Candidate N) → List (Candidate N)
  picked l e none rest = rest
  picked l e (some (id, ext)) rest = record { layer = l; entry = e; ext = ext; file_id = id } ∷ rest

  picked-Member :
      (l : Layer N) (e : Entry) (c : Candidate N) (o o' : Option (Str × Str))
      (rest rest' : List (Candidate N))
      → ((q : Str × Str) → o ≡ some q → o' ≡ some q)
      → (Member c rest → Member c rest')
      → Member c (picked l e o rest)
      → Member c (picked l e o' rest')
  unfolding picked
  picked-Member l e c none none rest rest' f g m = g m
  picked-Member l e c none (some q) rest rest' f g m = inr (g m)
  picked-Member l e c (some q) o' rest rest' f g m =
      rw (f q refl) (elim m [ inl here ↦ inl here | inr later ↦ inr (g later) ])

  entry_candidates-cons :
      (def : TypeDefinition N) (target : Option Str) (l : Layer N) (e : Entry) (es : List Entry)
      → entry_candidates loader def target [] l (e ∷ es)
        ≡ picked l e (match_entry loader def e target) (entry_candidates loader def target [] l es)
  unfolding entry_candidates includes picked
  entry_candidates-cons def target l e es = elim (Option-cases (match_entry loader def e target)) [
    | inl n ↦ rw (n, entry_candidates) refl
    | inr (q, n) ↦ rw (n, entry_candidates) refl
  ]

  entry_candidates-none :
      (def : TypeDefinition N) (target : Option Str) (l : Layer N) (es : List Entry)
      (c : Candidate N)
      → Member c (entry_candidates loader def target [] l es)
      → Member c (entry_candidates loader def none [] l es)
  entry_candidates-none def target l [] c m = unfold entry_candidates in m
  entry_candidates-none def target l (e ∷ es) c m = rw (entry_candidates-cons def none l e es) (
      picked-Member l e c (match_entry loader def e target) (match_entry loader def e none)
        (entry_candidates loader def target [] l es) (entry_candidates loader def none [] l es)
        (λ q h. match_entry-none def e target q h) (entry_candidates-none def target l es c)
        (subst (Member c) (entry_candidates-cons def target l e es) m))

  -- The first answer is an error, or the second has all its candidates.
  abbrev pub Sub :
      Result LoadError (List (Candidate N)) → Result LoadError (List (Candidate N)) → Type 0
  Sub (err e) r = Unit {0}
  Sub (ok cs) (err e) = ⊥
  Sub (ok cs) (ok cs') = (c : Candidate N) → Member c cs → Member c cs'

  joined :
      TypeDefinition N
      → Option Str
      → Layer N
      → Option (List Entry)
      → Result LoadError (List (Candidate N))
      → Result LoadError (List (Candidate N))
  joined def target l none r = err (failure source_list_failed none (some l.source.id) none)
  joined def target l (some es) (err e) = err e
  joined def target l (some es) (ok cs) = ok (entry_candidates loader def target [] l es ++ cs)

  joined-Sub :
      (def : TypeDefinition N) (target : Option Str) (l : Layer N) (listed : Option (List Entry))
      (r r' : Result LoadError (List (Candidate N)))
      → Sub r r'
      → Sub (joined def target l listed r) (joined def none l listed r')
  unfolding joined
  joined-Sub def target l none r r' h = tt
  joined-Sub def target l (some es) (err e) r' h = tt
  joined-Sub def target l (some es) (ok cs) (err e) h = h
  joined-Sub def target l (some es) (ok cs) (ok cs') h = λ c m.
      let target_part = entry_candidates loader def target [] l es in
      let part = entry_candidates loader def none [] l es in
      (Member-append c part cs').1 (elim ((Member-append c target_part cs).0 m) [
        | inl here ↦ inl (entry_candidates-none def target l es c here)
        | inr there ↦ inr (h c there)
      ])

  source_candidates-cons :
      (def : TypeDefinition N) (target : Option Str) (l : Layer N) (ls : List (Layer N))
      → source_candidates loader def target [] (l ∷ ls)
        ≡ joined def target l l.source.list (source_candidates loader def target [] ls)
  unfolding source_candidates includes joined
  source_candidates-cons def target l ls = ground arith

  source_candidates-Sub :
      (def : TypeDefinition N) (target : Option Str) (ls : List (Layer N))
      → Sub (source_candidates loader def target [] ls) (source_candidates loader def none [] ls)
  source_candidates-Sub def target [] = unfold source_candidates in λ c m. m
  source_candidates-Sub def target (l ∷ ls) =
      rw (source_candidates-cons def target l ls, source_candidates-cons def none l ls)
        (joined-Sub def target l l.source.list (source_candidates loader def target [] ls)
          (source_candidates loader def none [] ls) (source_candidates-Sub def target ls))

  -- The candidates for an id are among those of its type.
  pub candidates_for-Sub :
      (def : TypeDefinition N) (target : Option Str)
      → Sub
          (candidates_for loader def target [])
          (source_candidates loader def none [] loader.layers)
  unfolding candidates_for find_candidates find_all_file_candidates
  candidates_for-Sub def none = source_candidates-Sub def none loader.layers
  candidates_for-Sub def (some []) = source_candidates-Sub def none loader.layers
  candidates_for-Sub def (some (u ∷ id)) = source_candidates-Sub def _ loader.layers
