-- ===== src/Fixtures/Fresh/Collected.antt =====
-- The layers that a type's files give are held by them (packages/fixtures/src/loader.ts).
use mirk.Common.{
  ◌≡◌, refl, sym, ap, subst, ◌∙◌, true, Option, List, [], ◌∷◌, ◌++◌, Member, All, inl, inr,
  Bool-cases, Option-cases,
}
use mirk.Common.Result.{Result, ok, err, Result-cases}
use mirk.Text.{Str}
use mirk.Map
use mirk.Map.{Map}
use mirk.Js.{Number, Js}
use mirk.Graph.{includes}
use mirk.Fixtures.Shape.{LoadError, TypeDefinition, Loader}
use mirk.Fixtures.Sources.{
  Candidate, ParsedLayer, Caches, Load, document_key, read_and_parse, read_and_parse_fresh,
  keep_document,
}
use mirk.Fixtures.Documents.{
  go_on, ◌>>=◌, pure, expand_map_document, expand_parsed, collect_layers, add_layers,
}
use mirk.Fixtures.Candidates.{IsCandidate, AreApart}
use mirk.Fixtures.Fresh.{IsSound}
use mirk.Common.{Member-append}
use mirk.Fixtures.Refs.{format_ref}
use mirk.Fixtures.Sources.{is_wanted}
use mirk.Fixtures.Fresh.Calls.{expand_map_document-Agrees}
use mirk.Fixtures.Fresh.Known.{refs_of, parsed_refs, candidate_refs, Member-map}
use mirk.Fixtures.Documents.{layer_key}
use mirk.Common.Result.{ok-injective}

module _ {N A B : Type 0} where
  pub go_on-eq_ok :
      (next : A → Load N B) (p : Result LoadError A × Caches N) {b : B}
      → (go_on next p).0 ≡ ok b
      → (a : A) × (p.0 ≡ ok a) × ((next a p.1).0 ≡ ok b)
  go_on-eq_ok next (ok a, caches) h = (a, refl, h)
  go_on-eq_ok next (err e, caches) h = cc

  -- A chain that answers has a first part that answers.
  pub bind-eq_ok :
      (m : Load N A) (next : A → Load N B) (caches : Caches N) {b : B}
      → ((m >>= next) caches).0 ≡ ok b
      → (a : A) × ((m caches).0 ≡ ok a) × ((next a (m caches).1).0 ≡ ok b)
  bind-eq_ok m next caches h = go_on-eq_ok next (m caches) h

module _ {N : Type 0} ⦃number : Number N⦄ (loader : Loader N) (apart : AreApart loader.layers) where
  read_and_parse_lem :
      (c : Candidate N) (caches : Caches N)
      → IsCandidate loader.layers c
      → IsSound loader caches
      → (read_and_parse loader c caches).0 ≡ read_and_parse_fresh loader c
  unfolding read_and_parse keep_document
  read_and_parse_lem c caches hc h = elim (Option-cases (Map.get (document_key c) caches.parsed)) [
    | inr (v, e) ↦ rw (e, read_and_parse) (sym (h.parsed c v hc e))
    | inl e ↦ elim (Result-cases (read_and_parse_fresh loader c)) [
      | inl (v, fresh) ↦ rw (e, read_and_parse) (rw fresh refl)
      | inr (f, fresh) ↦ rw (e, read_and_parse) (rw fresh refl)
    ]
  ]

  -- The layers that were added stand in the list and have the wanted id.
  abbrev Kept :
      Option Str
      → List (ParsedLayer N)
      → Result LoadError (List (ParsedLayer N) × List Str)
      → Type 0
  Kept target ls (err e) = Unit {0}
  Kept target ls (ok (kept, seen)) =
      (l : ParsedLayer N) → Member l kept → Member l ls × (is_wanted target l.id ≡ true)

  Kept-skip :
      (target : Option Str) (k : ParsedLayer N) (ls : List (ParsedLayer N))
      (r : Result LoadError (List (ParsedLayer N) × List Str))
      → Kept target ls r
      → Kept target (k ∷ ls) r
  Kept-skip target k ls (err e) h = tt
  Kept-skip target k ls (ok (kept, seen)) h = λ l m. (inr (h l m).0, (h l m).1)

  Kept-cons :
      (target : Option Str) (k : ParsedLayer N) (ls : List (ParsedLayer N))
      (r : Result LoadError (List (ParsedLayer N) × List Str))
      → is_wanted target k.id ≡ true
      → Kept target ls r
      → Kept target (k ∷ ls) (elim r [ err e ↦ err e | ok (kept, seen') ↦ ok (k ∷ kept, seen') ])
  Kept-cons target k ls (err e) w h = tt
  Kept-cons target k ls (ok (kept, seen)) w h = λ l m. elim m [
    | inl e ↦ (inl e, ap (λ (x : ParsedLayer N). is_wanted target x.id) e ∙ w)
    | inr m' ↦ (inr (h l m').0, (h l m').1)
  ]

  add_layers-Kept :
      (def : TypeDefinition N) (target : Option Str) (seen : List Str) (ls : List (ParsedLayer N))
      → Kept target ls (add_layers def target seen ls)
  unfolding add_layers
  add_layers-Kept def target seen [] = λ l m. absurd m
  add_layers-Kept def target seen (k ∷ ls) = elim (Bool-cases (is_wanted target k.id)) [
    | inr other ↦
        rw (other, add_layers)
          (Kept-skip target k ls (add_layers def target seen ls)
            (add_layers-Kept def target seen ls))
    | inl wanted ↦ elim (Bool-cases (includes (layer_key k) seen)) [
      | inl again ↦ rw (wanted, add_layers) (rw again tt)
      | inr new ↦
          rw (wanted, add_layers)
            (rw new (
              Kept-cons target k ls (add_layers def target (layer_key k ∷ seen) ls) wanted
                (add_layers-Kept def target (layer_key k ∷ seen) ls)))
    ]
  ]

  -- The references of one document, once it is read and expanded.
  parsed_refs-Member :
      (def : TypeDefinition N) (t : Str) (c : Candidate N) (v : Js N) (ls : List (ParsedLayer N))
      (l : ParsedLayer N)
      → read_and_parse_fresh loader c ≡ ok v
      → expand_parsed def def.document c v ≡ ok ls
      → Member l ls
      → Member (format_ref t l.id) (parsed_refs def t c (read_and_parse_fresh loader c))
  unfolding parsed_refs refs_of
  parsed_refs-Member def t c v ls l e f m =
      rw e (rw f (Member-map (λ (k : ParsedLayer N). format_ref t k.id) l ls m))

  expanded :
      (def : TypeDefinition N) (c : Candidate N) (caches : Caches N) (ls : List (ParsedLayer N))
      → (expand_map_document loader def c caches).0 ≡ ok ls
      → (v : Js N) × ((read_and_parse loader c caches).0 ≡ ok v)
        × (expand_parsed def def.document c v ≡ ok ls)
  unfolding expand_map_document
  expanded def c caches ls e =
      bind-eq_ok (read_and_parse loader c) (λ v. pure (expand_parsed def def.document c v)) caches e

  pub collect_layers-Member :
      (def : TypeDefinition N) (t : Str) (target : Option Str) (seen : List Str)
      (cs : List (Candidate N)) (caches : Caches N) (ls : List (ParsedLayer N)) (l : ParsedLayer N)
      → All (IsCandidate loader.layers) cs
      → IsSound loader caches
      → (collect_layers loader def target seen cs caches).0 ≡ ok ls
      → Member l ls
      → Member (format_ref t l.id) (candidate_refs loader def t cs) × (is_wanted target l.id ≡ true)
  unfolding collect_layers candidate_refs
  collect_layers-Member def t target seen [] caches ls l hc h e m =
      absurd (subst (Member l) (sym (ok-injective e)) m)
  collect_layers-Member def t target seen (c ∷ cs) caches ls l hc h e m =
      let (layers, e₁, e₂) = bind-eq_ok (expand_map_document loader def c) _ caches e in
      let (_, sound) = (expand_map_document-Agrees loader apart def c hc.0).at caches h in
      let (added, e₃, e₄) =
        go_on-eq_ok
          (λ (added : List (ParsedLayer N) × List Str).
            (collect_layers loader def target added.1 cs >>= λ rest. pure (ok (added.0 ++ rest))))
          (add_layers def target seen layers, (expand_map_document loader def c caches).1) e₂ in
      let (rest, e₅, e₆) =
        bind-eq_ok (collect_layers loader def target added.1 cs)
          (λ rest. pure (ok (added.0 ++ rest))) (expand_map_document loader def c caches).1 e₄ in
      let split = (Member-append l added.0 rest).0 (subst (Member l) (sym (ok-injective e₆)) m) in
      let here_refs = parsed_refs def t c (read_and_parse_fresh loader c) in
      elim split [
        | inl here ↦
            let (ml, w) =
              subst (Kept target layers) e₃ (add_layers-Kept def target seen layers) l here in
            let (v, f, g) = expanded def c caches layers e₁ in
            let fresh = sym (read_and_parse_lem c caches hc.0 h) ∙ f in
            (
              (Member-append (format_ref t l.id) here_refs (candidate_refs loader def t cs)).1
                  (inl (parsed_refs-Member def t c v layers l fresh g ml)),
              w,
            )
        | inr there ↦
            let (held, w) =
              collect_layers-Member def t target added.1 cs _ rest l hc.1 sound e₅ there in
            (
              (Member-append (format_ref t l.id) here_refs (candidate_refs loader def t cs)).1
                  (inr held),
              w,
            )
      ]
