-- ===== src/Fixtures/Reading/Bases.antt =====
-- The split of layers at the last document that is no patch, and the places in a provenance
-- (packages/fixtures/src/loader.ts).
use mirk.Common.{
  ℕ, ◌+◌, ◌≡◌, refl, ap, ◌∙◌, false, none, some, List, [], ◌∷◌, ◌++◌, map, arith, Bool-cases,
  Option-cases, inl, inr,
}
use mathlib.Core.List.{append_assoc, map-append}
use mirk.Text.{Str}
use mirk.Fixtures.Layering.{is_patch_document}
use mirk.Fixtures.Shape.{Kind, base, ProvenanceLayer}
use mirk.Fixtures.Sources.{ParsedLayer}
use mirk.Fixtures.Loading.{Split, split_base, provenance_of}
use mirk.Fixtures.Reading.{ArePatches}

pub split_base-ArePatches :
    {N : Type 0} (ls : List (ParsedLayer N)) → split_base ls ≡ none → ArePatches ls
unfolding split_base
split_base-ArePatches [] h = tt
split_base-ArePatches (l ∷ ls) h = elim (Option-cases (split_base ls)) [
  | inr (s, e) ↦ absurd (ground (arith, e, h))
  | inl n ↦ elim (Bool-cases (is_patch_document l.parsed)) [
    | inl p ↦ (p, split_base-ArePatches ls n)
    | inr p ↦ absurd (ground (arith, n, p, h))
  ]
]

-- A layer of the provenance without its kind.
abbrev pub place : {N : Type 0} → ProvenanceLayer N → Str × Str × N × Str
place p = (p.source_id, p.layer, p.priority, p.path)

abbrev pub place_of : {N : Type 0} → ParsedLayer N → Str × Str × N × Str
place_of l = (l.layer.source.id, l.layer.name, l.layer.priority, l.source_path)

abbrev pub one_base : Kind → ℕ
one_base base = 1
one_base _ = 0

-- The layers of a provenance that are its base.
abbrev pub bases : {N : Type 0} → List (ProvenanceLayer N) → ℕ
bases [] = 0
bases (p ∷ ps) = one_base p.kind + bases ps

pub bases-append :
    {N : Type 0} (ps qs : List (ProvenanceLayer N)) → bases (ps ++ qs) ≡ bases ps + bases qs
bases-append [] qs = omega arith
bases-append (p ∷ ps) qs = omega (arith, bases-append ps qs)

-- The provenance has grown by these layers, none of which is its base.
pub record Grown {N : Type 0} (p : List (ProvenanceLayer N)) (ls : List (ParsedLayer N))
    (p' : List (ProvenanceLayer N)) : Type 0 where
  pub places : map place p' ≡ map place p ++ map place_of ls
  pub same_bases : bases p' ≡ bases p

pub Grown-cons :
    {N : Type 0} (p p' : List (ProvenanceLayer N)) (k : Kind) (l : ParsedLayer N)
    (ls : List (ParsedLayer N))
    → one_base k ≡ 0
    → Grown (p ++ provenance_of k l ∷ []) ls p'
    → Grown p (l ∷ ls) p'
unfolding provenance_of
Grown-cons p p' k l ls e g = record {
  places =
      g.places
      ∙ rw (map-append place p (provenance_of k l ∷ []))
          (append_assoc (map place p) (place_of l ∷ []) (map place_of ls));
  same_bases = omega (arith, g.same_bases, bases-append p (provenance_of k l ∷ []));
}

pub split_base-later :
    {N : Type 0} (l : ParsedLayer N) (ls : List (ParsedLayer N)) (s : Split N)
    → split_base ls ≡ some s
    → split_base (l ∷ ls) ≡ some (record s { before = l ∷ s.before })
unfolding split_base
split_base-later l ls s e = rw e refl

pub split_base-here :
    {N : Type 0} (l : ParsedLayer N) (ls : List (ParsedLayer N))
    → split_base ls ≡ none
    → is_patch_document l.parsed ≡ false
    → split_base (l ∷ ls) ≡ some (record { before = []; base_layer = l; after = ls })
unfolding split_base
split_base-here l ls e full = rw e (rw (full, is_patch_document) refl)

-- The split takes the list apart.
pub split_base-append :
    {N : Type 0} (ls : List (ParsedLayer N)) (s : Split N)
    → split_base ls ≡ some s
    → ls ≡ s.before ++ s.base_layer ∷ s.after
unfolding split_base
split_base-append {N} [] s e = absurd (ground (arith, e))
split_base-append {N} (l ∷ ls) s e = elim (Option-cases (split_base ls)) [
  | inr (s', f) ↦
      let same : record s' { before = l ∷ s'.before } ≡ s = cc (split_base-later l ls s' f, e) in
      ap (λ xs. l ∷ xs) (split_base-append ls s' f)
      ∙ ap (λ (x : Split N). x.before ++ x.base_layer ∷ x.after) same
  | inl n ↦ elim (Bool-cases (is_patch_document l.parsed)) [
    | inl p ↦ absurd (ground (arith, n, p, e))
    | inr full ↦
        let same : record { before = []; base_layer = l; after = ls } ≡ s =
          cc (split_base-here l ls n full, e) in
        ap (λ (x : Split N). x.before ++ x.base_layer ∷ x.after) same
  ]
]
