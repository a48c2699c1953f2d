-- ===== src/Fixtures/Fresh/Held.antt =====
-- A reference that loads is held by the files of the sources (packages/fixtures/src/loader.ts).
use mirk.Common.{
  ◌≡◌, refl, sym, ap, subst, ◌∙◌, true, Option, none, some, List, [], ◌∷◌, arith, Member, inl, inr,
}
use mirk.Common.Result.{ok, Result-cases}
use mirk.Text.{Str, str_eq}
use mirk.Text.Units.{str_eq_iff}
use mirk.Map
use mirk.Map.{Map}
use mirk.Js.{Number, Js}
use mirk.Fixtures.Shape.{TypeDefinition, Loaded, Loader}
use mirk.Fixtures.Sources.{ParsedLayer, no_caches, source_candidates, def_or_throw}
use mirk.Fixtures.Documents.{◌>>=◌, pure, collect_layers, candidates_for, parsed_candidates}
use mirk.Fixtures.Loading.{load_parsed, load_fresh, parse_or_throw, combine_layers}
use mirk.Fixtures.Candidates.{AreApart, candidates_for-IsCandidate, AllCandidates}
use mirk.Fixtures.Fresh.{no_caches-IsSound}
use mirk.Fixtures.Refs.{format_ref, ParsedRef, parse_ref}
use mirk.Fixtures.Refs.Grammar.{parse_ref-format_ref}
use mirk.Fixtures.Sources.{is_wanted}
use mirk.Fixtures.Fresh.Known.{
  type_refs, registry_refs, held_refs, type_refs-Member, registry_refs-Member,
}
use mirk.Fixtures.Fresh.Subsets.{Sub, candidates_for-Sub}
use mirk.Fixtures.Fresh.Collected.{go_on-eq_ok, bind-eq_ok, collect_layers-Member}
use mirk.Fixtures.Shape.{ProvenanceLayer}

module _ {N : Type 0} ⦃number : Number N⦄ (loader : Loader N) (apart : AreApart loader.layers) where
  -- A layer of a fixture of a type is held by the files of the type.
  parsed_candidates-Member :
      (def : TypeDefinition N) (t : Str) (target : Option Str) (ls : List (ParsedLayer N))
      (l : ParsedLayer N)
      → (parsed_candidates loader def target [] no_caches).0 ≡ ok ls
      → Member l ls
      → Member
          (format_ref t l.id)
          (type_refs loader def t (source_candidates loader def none [] loader.layers))
        × (is_wanted target l.id ≡ true)
  unfolding parsed_candidates
  parsed_candidates-Member def t target ls l e m =
      let (cs, e₁, e₂) =
        go_on-eq_ok (λ cs. collect_layers loader def target [] cs)
          (candidates_for loader def target [], no_caches) e in
      let candidates =
        subst (AllCandidates loader apart) e₁
          (candidates_for-IsCandidate loader apart def target []) in
      let (held, w) =
        collect_layers-Member loader apart def t target [] cs no_caches ls l candidates
          (no_caches-IsSound loader) e₂ m in
      (
        type_refs-Member loader def t (format_ref t l.id) cs _
            (subst (λ r. Sub loader r (source_candidates loader def none [] loader.layers)) e₁
              (candidates_for-Sub loader def target))
            held,
        w,
      )

  combine_layers-Member :
      (def : TypeDefinition N) (ref : Str) (ls : List (ParsedLayer N))
      (built : Js N × List (ProvenanceLayer N))
      → combine_layers loader def ref ls ≡ ok built
      → (k : ParsedLayer N) × Member k ls
  unfolding combine_layers
  combine_layers-Member def ref [] built e = absurd (ground (arith, e))
  combine_layers-Member def ref (k ∷ ls) built e = (k, inl refl)

  wanted : (target id : Str) → is_wanted (some target) id ≡ true → str_eq id target ≡ true
  unfolding is_wanted
  wanted target id w = w

  parsed_ref :
      (ref : Str) (p : ParsedRef) → parse_or_throw ref ≡ ok p → ref ≡ format_ref p.type_name p.id
  unfolding parse_or_throw
  parsed_ref ref p e = elim (Result-cases (parse_ref ref)) [
    | inl (q, f) ↦
        let same : q ≡ p = ground (arith, e, f) in
        ((parse_ref-format_ref ref p).0 (f ∙ ap ok same)).0
    | inr (g, f) ↦ absurd (ground (arith, e, f))
  ]

  found_def :
      (t ref : Str) (def : TypeDefinition N)
      → def_or_throw loader t ref ≡ ok def
      → Map.get t loader.registry ≡ some def
  unfolding def_or_throw
  found_def t ref def e = ground (arith, e)

  -- A fixture that loads is held by the files of the sources.
  pub load_fresh-held_refs :
      (ref : Str) (l : Loaded N)
      → (load_fresh loader ref [] no_caches).0 ≡ ok l
      → Member ref (held_refs loader)
  unfolding load_fresh load_parsed held_refs
  load_fresh-held_refs ref l e =
      let (parsed, e₁, e₂) =
        go_on-eq_ok (λ p. load_parsed loader ref [] p) (parse_or_throw ref, no_caches) e in
      let (def, e₃, e₄) =
        go_on-eq_ok
          (λ def.
            (parsed_candidates loader def (some parsed.id) [] >>= λ layers.
            pure (combine_layers loader def ref layers) >>= λ built. pure (
              ok (record {
                ref = ref;
                type_name = parsed.type_name;
                id = parsed.id;
                value = built.0;
                layers = built.1;
              }))))
          (def_or_throw loader parsed.type_name ref, no_caches) e₂ in
      let (ls, e₅, e₆) =
        bind-eq_ok (parsed_candidates loader def (some parsed.id) []) _ no_caches e₄ in
      let (built, e₇, _) = go_on-eq_ok _ (combine_layers loader def ref ls, _) e₆ in
      let (k, mk) = combine_layers-Member def ref ls built e₇ in
      let (held, w) = parsed_candidates-Member def parsed.type_name (some parsed.id) ls k e₅ mk in
      let same : format_ref parsed.type_name k.id ≡ ref =
        ap (format_ref parsed.type_name) ((str_eq_iff k.id parsed.id).0 (wanted parsed.id k.id w))
        ∙ sym (parsed_ref ref parsed e₁) in
      subst (λ r. Member r (registry_refs loader loader.registry)) same
        (registry_refs-Member loader loader.registry parsed.type_name _ def
          (found_def parsed.type_name ref def e₃) held)
