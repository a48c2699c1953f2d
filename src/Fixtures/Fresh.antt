-- ===== src/Fixtures/Fresh.antt =====
-- The caches of a loader hold what a new loader would find (packages/fixtures/src/loader.ts).
pub mod Calls
pub mod Materializers
pub mod Steps
pub mod Ends
pub mod Subsets
pub mod Known
pub mod Collected
pub mod Held
pub mod Termination
use mirk.Common.{
  zero, suc, ◌≡◌, refl, sym, ap, ◌∙◌, Bool, true, false, Option, some, [], ◌∷◌, arith,
  if◌then◌else◌, inl, inr, Bool-cases, Option-cases,
}
use mirk.Common.Result.{Result, ok, err, Result-cases}
use mirk.Text.{Str, str_eq}
use mirk.Text.Units.{str_eq_iff}
use mirk.Map
use mirk.Map.{Map}
use mirk.Map.Laws.{get-set}
use mirk.Js.{Number, Js}
use mirk.Fixtures.Shape.{LoadError, Entry, Source, Loaded, Loader}
use mirk.Fixtures.Sources.{
  Candidate, Caches, no_caches, Load, document_key, read_and_parse, read_and_parse_fresh,
  keep_document,
}
use mirk.Fixtures.Documents.{go_on, ◌>>=◌, pure}
use mirk.Fixtures.Loading.{load_fresh}
use mirk.Fixtures.Keys.{document_key-injective}
use mirk.Fixtures.Candidates.{IsCandidate, AreApart}

module _ {N : Type 0} ⦃number : Number N⦄ (loader : Loader N) where
  -- What the caches hold is what a new loader would find.
  pub record IsSound (caches : Caches N) : Type 0 where
    pub parsed :
        (c : Candidate N) (v : Js N)
        → IsCandidate loader.layers c
        → Map.get (document_key c) caches.parsed ≡ some v
        → read_and_parse_fresh loader c ≡ ok v
    pub raw :
        (ref : Str) (l : Loaded N)
        → Map.get ref caches.raw ≡ some l
        → (load_fresh loader ref [] no_caches).0 ≡ ok l

  -- A call answers on sound caches as it does on empty ones, and leaves sound caches.
  pub record Agrees {A : Type 0} (m : Load N A) : Type 0 where
    pub at :
        (caches : Caches N)
        → IsSound caches
        → ((m caches).0 ≡ (m no_caches).0) × IsSound (m caches).1

  pub no_caches-IsSound : IsSound no_caches
  unfolding Map.get
  no_caches-IsSound = record { parsed = λ c v m h. ground arith; raw = λ ref l h. ground arith }

  pub pure-Agrees : {A : Type 0} (r : Result LoadError A) → Agrees (pure r)
  pure-Agrees r = record { at = λ caches h. (refl, h) }

  go_on-Agrees :
      {A B : Type 0} (next : A → Load N B) (p q : Result LoadError A × Caches N)
      → p.0 ≡ q.0
      → IsSound p.1
      → IsSound q.1
      → ((a : A) → q.0 ≡ ok a → Agrees (next a))
      → ((go_on next p).0 ≡ (go_on next q).0) × IsSound (go_on next p).1
  go_on-Agrees next (ok a, c) (ok b, d) e hp hq hn =
      let same : a ≡ b = cc e in
      let (here, sound) = (hn a (sym e)).at c hp in
      let (there, _) = (hn a (sym e)).at d hq in
      (here ∙ sym there ∙ ap (λ x. (next x d).0) same, sound)
  go_on-Agrees next (err f, c) (err g, d) e hp hq hn = (cc e, hp)
  go_on-Agrees next (ok a, c) (err g, d) e hp hq hn = absurd (ground (arith, e))
  go_on-Agrees next (err f, c) (ok b, d) e hp hq hn = absurd (ground (arith, e))

  pub bind-Agrees :
      {A B : Type 0} (m : Load N A) (next : A → Load N B)
      → Agrees m
      → ((a : A) → (m no_caches).0 ≡ ok a → Agrees (next a))
      → Agrees (m >>= next)
  bind-Agrees m next hm hn = record {
    at = λ caches h.
        let (same, sound) = hm.at caches h in
        let (_, sound₀) = hm.at no_caches no_caches-IsSound in
        go_on-Agrees next (m caches) (m no_caches) same sound sound₀ hn;
  }

module _ {N : Type 0} ⦃number : Number N⦄ {loader : Loader N} where
  pub pure_rule : {A : Type 0} {r : Result LoadError A} → Agrees loader (pure r)
  pure_rule = pure-Agrees loader _

  pub bind_rule :
      {A B : Type 0} {m : Load N A} {next : A → Load N B}
      → Agrees loader m
      → ((a : A) → Agrees loader (next a))
      → Agrees loader (m >>= next)
  bind_rule hm hn = bind-Agrees loader _ _ hm (λ a e. hn a)

  pub if_rule :
      {A : Type 0} {m m' : Load N A} (b : Bool)
      → Agrees loader m
      → Agrees loader m'
      → Agrees loader (if b then m else m')
  if_rule true h h' = h
  if_rule false h h' = h'

pub ruleset agrees_rules = (pure_rule, bind_rule, if_rule)

module _ {N : Type 0} ⦃number : Number N⦄ (loader : Loader N) (apart : AreApart loader.layers) where
  fresh_of : Candidate N → Source → Entry → Str → Result LoadError (Js N)
  unfolding read_and_parse_fresh
  fresh_of c source entry ext =
      read_and_parse_fresh loader
        (record c { layer = record c.layer { source = source }; entry = entry; ext = ext })

  -- Reading depends on the source, the entry and the extension only.
  fresh_same :
      (c d : Candidate N)
      → IsCandidate loader.layers c
      → IsCandidate loader.layers d
      → document_key c ≡ document_key d
      → read_and_parse_fresh loader c ≡ read_and_parse_fresh loader d
  unfolding fresh_of
  fresh_same c d hc hd e =
      let doc = document_key-injective c d hc.clean hd.clean e in
      let source = apart.distinct c.layer d.layer hc.layer hd.layer doc.id in
      let entry : c.entry ≡ d.entry = cc (doc.locator, doc.path) in
      ap (λ x. fresh_of c x c.entry c.ext) source
      ∙ ap (λ x. fresh_of c d.layer.source x c.ext) entry
      ∙ ap (fresh_of c d.layer.source d.entry) doc.ext

  keep_document-IsSound :
      (c : Candidate N) (v : Js N) (caches : Caches N)
      → IsCandidate loader.layers c
      → read_and_parse_fresh loader c ≡ ok v
      → IsSound loader caches
      → IsSound loader (record caches { parsed = Map.set (document_key c) v caches.parsed })
  keep_document-IsSound c v caches hc fresh h = record {
    parsed = λ d w hd got.
        let found = get-set (document_key c) (document_key d) v caches.parsed in
        elim (Bool-cases (str_eq (document_key c) (document_key d))) [
          | inl e ↦
              let same =
                fresh_same c d hc hd ((str_eq_iff (document_key c) (document_key d)).0 e) in
              sym same ∙ fresh ∙ ground (arith, found)
          | inr e ↦ h.parsed d w hd (ground (arith, found))
        ];
    raw = h.raw;
  }

  pub read_and_parse-Agrees :
      (c : Candidate N) → IsCandidate loader.layers c → Agrees loader (read_and_parse loader c)
  unfolding read_and_parse keep_document
  read_and_parse-Agrees c hc = record {
    at = λ caches h. elim (Option-cases (Map.get (document_key c) caches.parsed)) [
      | inr (v, e) ↦
          (rw (e, read_and_parse) (rw (h.parsed c v hc e) refl), rw (e, read_and_parse) h)
      | inl e ↦ elim (Result-cases (read_and_parse_fresh loader c)) [
        | inl (v, fresh) ↦ (
          rw (e, read_and_parse) (rw fresh refl),
          rw (e, read_and_parse) (rw fresh (keep_document-IsSound c v caches hc fresh h)),
        )
        | inr (f, fresh) ↦
            (rw (e, read_and_parse) (rw fresh refl), rw (e, read_and_parse) (rw fresh h))
      ]
    ];
  }
