-- ===== src/Fixtures/Keys.antt =====
-- The keys of the loader's caches are apart (packages/fixtures/src/loader.ts): no part but the last
-- of a key holds the NUL that joins the parts.
use mirk.Common.{◌≡◌, refl, sym, ap, ◌∙◌, true, false, List, [], ◌∷◌, ◌++◌, arith, Member, inl, inr}
use mirk.Common.Result.{ok}
use mirk.Text.{Str}
use mirk.Graph.{includes}
use mirk.Graph.Sets.{includes_iff}
use mirk.Fixtures.Refs.{includes_unit}
use mirk.Fixtures.Shape.{Layer}
use mirk.Fixtures.Sources.{Candidate, join_nul, document_key}
use mirk.Fixtures.Registry.{assert_distinct_source_ids}

abbrev pub NoNul : Str → Type 0
NoNul s = includes_unit 0 s ≡ false

-- The first NUL is where the first part ends.
pub append_nul-injective :
    (a b r s : Str) → NoNul a → NoNul b → a ++ 0 ∷ r ≡ b ++ 0 ∷ s → (a ≡ b) × (r ≡ s)
unfolding includes_unit
append_nul-injective [] [] r s ha hb e = (refl, ground arith)
append_nul-injective [] (v ∷ b) r s ha hb e = ground arith
append_nul-injective (u ∷ a) [] r s ha hb e = ground arith
append_nul-injective (u ∷ a) (v ∷ b) r s ha hb e = ground (arith, append_nul-injective a b r s)

module _ {N : Type 0} where
  -- Its parts but the extension have no NUL.
  pub record IsClean (c : Candidate N) : Type 0 where
    pub id : NoNul c.layer.source.id
    pub locator : NoNul c.entry.locator
    pub path : NoNul c.entry.relative_path

  pub record SameDocument (c d : Candidate N) : Type 0 where
    pub id : c.layer.source.id ≡ d.layer.source.id
    pub locator : c.entry.locator ≡ d.entry.locator
    pub path : c.entry.relative_path ≡ d.entry.relative_path
    pub ext : c.ext ≡ d.ext

  pub document_key-injective :
      (c d : Candidate N)
      → IsClean c
      → IsClean d
      → document_key c ≡ document_key d
      → SameDocument c d
  unfolding document_key join_nul
  document_key-injective c d hc hd e =
      let (id, e₁) = append_nul-injective _ _ _ _ hc.id hd.id e in
      let (locator, e₂) = append_nul-injective _ _ _ _ hc.locator hd.locator e₁ in
      let (path, ext) = append_nul-injective _ _ _ _ hc.path hd.path e₂ in
      record { id = id; locator = locator; path = path; ext = ext }

  -- Layers whose sources have one id have one source.
  abbrev pub AreDistinct : List (Layer N) → Type 0
  AreDistinct layers =
      (a b : Layer N)
      → Member a layers
      → Member b layers
      → a.source.id ≡ b.source.id
      → a.source ≡ b.source

  distinct_step :
      (seen : List Str) (l : Layer N) (ls : List (Layer N))
      → assert_distinct_source_ids seen (l ∷ ls) ≡ ok tt
      → (includes l.source.id seen ≡ false)
        × (assert_distinct_source_ids (l.source.id ∷ seen) ls ≡ ok tt)
  unfolding assert_distinct_source_ids
  distinct_step seen l ls h = ground arith

  not_seen :
      (seen : List Str) (layers : List (Layer N)) (a : Layer N) (id : Str)
      → assert_distinct_source_ids seen layers ≡ ok tt
      → Member a layers
      → a.source.id ≡ id
      → Member id seen
      → ⊥
  not_seen seen [] a id h m e s = absurd m
  not_seen seen (l ∷ ls) a id h (inl same) e s =
      let here : includes id seen ≡ true = (includes_iff id seen).1 s in
      let (fresh, _) = distinct_step seen l ls h in
      let e' : id ≡ l.source.id = sym e ∙ ap (λ (x : Layer N). x.source.id) same in
      cc (here, fresh, ap (λ k. includes k seen) e')
  not_seen seen (l ∷ ls) a id h (inr m) e s =
      not_seen (l.source.id ∷ seen) ls a id (distinct_step seen l ls h).1 m e (inr s)

  distinct_from :
      (seen : List Str) (layers : List (Layer N))
      → assert_distinct_source_ids seen layers ≡ ok tt
      → AreDistinct layers
  distinct_from seen [] h a b ma mb e = absurd ma
  distinct_from seen (l ∷ ls) h a b (inl p) (inl q) e = ap (λ (x : Layer N). x.source) (p ∙ sym q)
  distinct_from seen (l ∷ ls) h a b (inl p) (inr q) e = absurd (
      not_seen (l.source.id ∷ seen) ls b l.source.id (distinct_step seen l ls h).1 q
        (sym e ∙ ap (λ (x : Layer N). x.source.id) p) (inl refl))
  distinct_from seen (l ∷ ls) h a b (inr p) (inl q) e = absurd (
      not_seen (l.source.id ∷ seen) ls a l.source.id (distinct_step seen l ls h).1 p
        (e ∙ ap (λ (x : Layer N). x.source.id) q) (inl refl))
  distinct_from seen (l ∷ ls) h a b (inr p) (inr q) e =
      distinct_from (l.source.id ∷ seen) ls (distinct_step seen l ls h).1 a b p q e

  -- What the check of a new loader gives.
  pub assert_distinct_source_ids-AreDistinct :
      (layers : List (Layer N)) → assert_distinct_source_ids [] layers ≡ ok tt → AreDistinct layers
  assert_distinct_source_ids-AreDistinct layers h = distinct_from [] layers h
