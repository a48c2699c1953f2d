-- ===== src/Fixtures/Fresh/Calls.antt =====
-- Every call of a loader answers with its caches as it would without (packages/fixtures/src/loader.ts).
use mirk.Common.{
  ◌≡◌, sym, ap, subst, ◌∙◌, Option, none, List, [], ◌∷◌, arith, All, inl, inr, Bool-cases,
  Option-cases,
}
use mirk.Common.Result.{Result, ok, err}
use mirk.Text.{Str, str_eq}
use mirk.Text.Units.{str_eq_iff}
use mirk.Map
use mirk.Map.{Map}
use mirk.Map.Laws.{get-set}
use mirk.Js.{Number, Js}
use mirk.Fixtures.Shape.{LoadError, TypeDefinition, Loaded, Loader}
use mirk.Fixtures.Sources.{Candidate, ParsedLayer, Caches, no_caches}
use mirk.Fixtures.Documents.{
  go_on, ◌>>=◌, expand_map_document, collect_layers, candidates_for, parsed_candidates,
}
use mirk.Fixtures.Loading.{load_parsed, load_fresh, load_raw_internal, load_raw, load, keep_loaded}
use mirk.Fixtures.Calls
use mirk.Fixtures.Refs.{explicit_ref}
use mirk.Fixtures.Calls.{
  list_types, listed_types, add_refs, invalidate, load_typed, bare_ref, resolve_inline, resolve_ref,
  or_type,
}
use mirk.Fixtures.Candidates.{IsCandidate, AreApart, candidates_for-IsCandidate, AllCandidates}
use mirk.Fixtures.Fresh.{
  IsSound, Agrees, no_caches-IsSound, pure-Agrees, bind-Agrees, agrees_rules, pure_rule, bind_rule,
  read_and_parse-Agrees,
}

module _ {N : Type 0} ⦃number : Number N⦄ (loader : Loader N) (apart : AreApart loader.layers) where
  pub expand_map_document-Agrees :
      (def : TypeDefinition N) (c : Candidate N)
      → IsCandidate loader.layers c
      → Agrees loader (expand_map_document loader def c)
  unfolding expand_map_document
  expand_map_document-Agrees def c hc =
      search (agrees_rules, read_and_parse-Agrees loader apart c hc)

  collect_layers-Agrees :
      (def : TypeDefinition N) (target : Option Str) (seen : List Str) (cs : List (Candidate N))
      → All (IsCandidate loader.layers) cs
      → Agrees loader (collect_layers loader def target seen cs)
  unfolding collect_layers
  collect_layers-Agrees def target seen [] h = search agrees_rules
  collect_layers-Agrees def target seen (c ∷ cs) h =
      bind_rule (expand_map_document-Agrees def c h.0) (λ layers.
        bind_rule pure_rule (λ (added : List (ParsedLayer N) × List Str).
          bind_rule (collect_layers-Agrees def target added.1 cs h.1) (λ rest. pure_rule)))

  pub parsed_candidates-Agrees :
      (def : TypeDefinition N) (target : Option Str) (skip : List Str)
      → Agrees loader (parsed_candidates loader def target skip)
  unfolding parsed_candidates
  parsed_candidates-Agrees def target skip =
      bind-Agrees loader _ _ (pure-Agrees loader (candidates_for loader def target skip)) (λ cs e.
        collect_layers-Agrees def target [] cs (
          subst (AllCandidates loader apart) e
            (candidates_for-IsCandidate loader apart def target skip)))

  load_fresh-Agrees : (ref : Str) (skip : List Str) → Agrees loader (load_fresh loader ref skip)
  unfolding load_fresh load_parsed
  load_fresh-Agrees ref skip = search (agrees_rules, parsed_candidates-Agrees)

  keep_loaded-IsSound :
      (ref : Str) (l : Loaded N) (caches : Caches N)
      → (load_fresh loader ref [] no_caches).0 ≡ ok l
      → IsSound loader caches
      → IsSound loader (record caches { raw = Map.set ref l caches.raw })
  keep_loaded-IsSound ref l caches fresh h = record {
    parsed = h.parsed;
    raw = λ k m got.
        let found = get-set ref k l caches.raw in
        elim (Bool-cases (str_eq ref k)) [
          | inl e ↦
              let same : k ≡ ref = sym ((str_eq_iff ref k).0 e) in
              ap (λ x. (load_fresh loader x [] no_caches).0) same ∙ fresh ∙ ground (arith, found)
          | inr e ↦ h.raw k m (ground (arith, found))
        ];
  }

  keep_step :
      (ref : Str) (p : Result LoadError (Loaded N) × Caches N)
      → p.0 ≡ (load_fresh loader ref [] no_caches).0
      → IsSound loader p.1
      → ((go_on (keep_loaded ref) p).0 ≡ (load_fresh loader ref [] no_caches).0)
        × IsSound loader (go_on (keep_loaded ref) p).1
  unfolding keep_loaded
  keep_step ref (ok l, caches) e h = (e, keep_loaded-IsSound ref l caches (sym e) h)
  keep_step ref (err f, caches) e h = (e, h)

  -- The part of a load that is not in the cache.
  load_missing :
      (ref : Str) (caches : Caches N)
      → IsSound loader caches
      → (((load_fresh loader ref [] >>= keep_loaded ref) caches).0
          ≡ (load_fresh loader ref [] no_caches).0)
        × IsSound loader ((load_fresh loader ref [] >>= keep_loaded ref) caches).1
  load_missing ref caches h =
      let (same, sound) = (load_fresh-Agrees ref []).at caches h in
      keep_step ref (load_fresh loader ref [] caches) same sound

  -- A load from sound caches finds what a load without a cache finds.
  pub load_raw_lem :
      (ref : Str) (caches : Caches N)
      → IsSound loader caches
      → ((load_raw loader ref caches).0 ≡ (load_fresh loader ref [] no_caches).0)
        × IsSound loader (load_raw loader ref caches).1
  unfolding load_raw load_raw_internal
  load_raw_lem ref caches h = elim (Option-cases (Map.get ref caches.raw)) [
    | inr (l, e) ↦ (rw (e, load_raw_internal) (sym (h.raw ref l e)), rw (e, load_raw_internal) h)
    | inl e ↦ rw (e, load_raw_internal) (load_missing ref caches h)
  ]

  pub load_raw-Agrees : (ref : Str) → Agrees loader (load_raw loader ref)
  load_raw-Agrees ref = record {
    at = λ caches h.
        let (here, sound) = load_raw_lem ref caches h in
        let (there, _) = load_raw_lem ref no_caches (no_caches-IsSound loader) in
        (here ∙ sym there, sound);
  }

  pub load-Agrees : (ref : Str) → Agrees loader (load loader ref)
  unfolding load
  load-Agrees ref = search (agrees_rules, load_raw-Agrees)

  list_types-Agrees : (ts refs : List Str) → Agrees loader (list_types loader ts refs)
  unfolding list_types
  list_types-Agrees [] refs = search agrees_rules
  list_types-Agrees (t ∷ ts) refs = elim (Option-cases (Map.get t loader.registry)) [
    | inl e ↦ rw (e, list_types) (list_types-Agrees ts refs)
    | inr (def, e) ↦
        rw (e, list_types)
          (bind_rule (parsed_candidates-Agrees def none [])
            (λ ls. list_types-Agrees ts (add_refs t ls refs)))
  ]

  pub list-Agrees : (t : Option Str) → Agrees loader (Calls.list loader t)
  unfolding Calls.list
  list-Agrees t = search (agrees_rules, list_types-Agrees)

  load_typed-Agrees :
      (expected : Option Str) (ref : Str) → Agrees loader (load_typed loader expected ref)
  unfolding load_typed
  load_typed-Agrees expected ref = search (agrees_rules, load-Agrees)

  resolve_inline-Agrees :
      (expected : Option Str) (v : Js N) → Agrees loader (resolve_inline loader expected v)
  unfolding resolve_inline
  resolve_inline-Agrees expected v = search agrees_rules

  pub resolve_ref-Agrees :
      (expected : Option Str) (v : Js N) → Agrees loader (resolve_ref loader expected v)
  unfolding resolve_ref
  resolve_ref-Agrees expected v = elim (Option-cases (explicit_ref v)) [
    | inr (ref, e) ↦ rw (e, resolve_ref) (load_typed-Agrees expected ref)
    | inl e ↦ elim (Option-cases (bare_ref loader expected v)) [
      | inr (ref, f) ↦ rw (e, resolve_ref) (rw f (load_typed-Agrees expected ref))
      | inl f ↦ rw (e, resolve_ref) (rw f (resolve_inline-Agrees expected v))
    ]
  ]
