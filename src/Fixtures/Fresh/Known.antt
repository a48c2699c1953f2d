-- ===== src/Fixtures/Fresh/Known.antt =====
-- The references that the files of a loader's sources hold: nothing else loads
-- (packages/fixtures/src/loader.ts).
use mirk.Common.{
  ◌≡◌, refl, sym, ap, subst, none, some, List, [], ◌∷◌, ◌++◌, arith, Member, inl, inr, Bool-cases,
}
use mirk.Common.Result.{Result, ok, err}
use mirk.Text.{Str, str_eq}
use mirk.Text.Units.{str_eq_iff}
use mirk.Map
use mirk.Map.{Map}
use mirk.Js.{Js}
use mirk.Fixtures.Shape.{LoadError, TypeDefinition, Loader}
use mirk.Fixtures.Sources.{Candidate, ParsedLayer, source_candidates, read_and_parse_fresh}
use mirk.Fixtures.Documents.{expand_parsed}
use mirk.Common.{Member-append, map}
use mirk.Fixtures.Refs.{format_ref}
use mirk.Fixtures.Fresh.Subsets.{Sub}

-- The references to the layers of one document.
module _ {N : Type 0} where
  unfoldable pub refs_of :
      TypeDefinition N → Str → Result LoadError (List (ParsedLayer N)) → List Str
  refs_of def t (err e) = []
  refs_of def t (ok ls) = map (λ l. format_ref t l.id) ls

  unfoldable pub parsed_refs :
      TypeDefinition N → Str → Candidate N → Result LoadError (Js N) → List Str
  unfolding refs_of
  parsed_refs def t c (err e) = []
  parsed_refs def t c (ok v) = refs_of def t (expand_parsed def def.document c v)

module _ {N : Type 0} (loader : Loader N) where
  unfoldable pub candidate_refs : TypeDefinition N → Str → List (Candidate N) → List Str
  unfolding parsed_refs
  candidate_refs def t [] = []
  candidate_refs def t (c ∷ cs) =
      parsed_refs def t c (read_and_parse_fresh loader c) ++ candidate_refs def t cs

  unfoldable pub type_refs :
      TypeDefinition N → Str → Result LoadError (List (Candidate N)) → List Str
  unfolding candidate_refs
  type_refs def t (err e) = []
  type_refs def t (ok cs) = candidate_refs def t cs

  unfoldable pub registry_refs : Map (TypeDefinition N) → List Str
  unfolding type_refs
  registry_refs [] = []
  registry_refs ((t, def) ∷ defs) =
      type_refs def t (source_candidates loader def none [] loader.layers) ++ registry_refs defs

  -- The references to the fixtures in all files of all types.
  unfoldable pub held_refs : List Str
  unfolding registry_refs
  held_refs = registry_refs loader.registry

pub Member-map :
    {A B : Type 0} (f : A → B) (x : A) (xs : List A) → Member x xs → Member (f x) (map f xs)
Member-map f x [] m = absurd m
Member-map f x (y ∷ ys) (inl e) = inl (ap f e)
Member-map f x (y ∷ ys) (inr m) = inr (Member-map f x ys m)

module _ {N : Type 0} (loader : Loader N) where
  pub candidate_refs-of :
      (def : TypeDefinition N) (t x : Str) (cs : List (Candidate N))
      → Member x (candidate_refs loader def t cs)
      → (c : Candidate N) × Member c cs
        × Member x (parsed_refs def t c (read_and_parse_fresh loader c))
  unfolding candidate_refs
  candidate_refs-of def t x [] m = absurd m
  candidate_refs-of def t x (c ∷ cs) m =
      elim ((Member-append x (parsed_refs def t c (read_and_parse_fresh loader c))
          (candidate_refs loader def t cs)).0
        m) [
          | inl here ↦ (c, inl refl, here)
          | inr there ↦ let (d, md, mx) = candidate_refs-of def t x cs there in (d, inr md, mx)
        ]

  pub candidate_refs-Member :
      (def : TypeDefinition N) (t x : Str) (cs : List (Candidate N)) (c : Candidate N)
      → Member c cs
      → Member x (parsed_refs def t c (read_and_parse_fresh loader c))
      → Member x (candidate_refs loader def t cs)
  unfolding candidate_refs
  candidate_refs-Member def t x [] c mc mx = absurd mc
  candidate_refs-Member def t x (d ∷ cs) c mc mx =
      (Member-append x (parsed_refs def t d (read_and_parse_fresh loader d))
          (candidate_refs loader def t cs)).1
        (elim mc [
          | inl e ↦
              inl (subst (λ k. Member x (parsed_refs def t k (read_and_parse_fresh loader k))) e mx)
          | inr m ↦ inr (candidate_refs-Member def t x cs c m mx)
        ])

  pub type_refs-Member :
      (def : TypeDefinition N) (t x : Str) (cs : List (Candidate N))
      (r : Result LoadError (List (Candidate N)))
      → Sub loader (ok cs) r
      → Member x (candidate_refs loader def t cs)
      → Member x (type_refs loader def t r)
  unfolding type_refs
  type_refs-Member def t x cs (err e) sub m = absurd sub
  type_refs-Member def t x cs (ok cs') sub m =
      let (c, mc, mx) = candidate_refs-of def t x cs m in
      candidate_refs-Member def t x cs' c (sub c mc) mx

  pub registry_refs-Member :
      (defs : Map (TypeDefinition N)) (t x : Str) (def : TypeDefinition N)
      → Map.get t defs ≡ some def
      → Member x (type_refs loader def t (source_candidates loader def none [] loader.layers))
      → Member x (registry_refs loader defs)
  unfolding registry_refs Map.get
  registry_refs-Member [] t x def e m = absurd (ground (arith, e))
  registry_refs-Member ((k, d) ∷ defs) t x def e m =
      (Member-append x (type_refs loader d k (source_candidates loader d none [] loader.layers))
          (registry_refs loader defs)).1
        (elim (Bool-cases (str_eq k t)) [
          | inl same ↦ inl (
              let e' : some d ≡ some def = ground (arith, e) in
              let here = λ (def' : TypeDefinition N) (t' : Str).
                Member x (
                  type_refs loader def' t' (source_candidates loader def' none [] loader.layers)) in
              let same_def : def ≡ d = cc e' in
              subst (λ t'. here d t') (sym ((str_eq_iff k t).0 same))
                (subst (λ def'. here def' t) same_def m))
          | inr other ↦ inr (registry_refs-Member defs t x def (ground (arith, e)) m)
        ])
