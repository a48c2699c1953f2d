-- ===== src/Fixtures/Reading/Value.antt =====
-- The loader's value of a fixture is what its layers give (packages/fixtures/src/loader.ts).
use mirk.Common.{
  ◌≡◌, refl, sym, ap, ◌∙◌, true, false, Option, none, some, List, [], ◌∷◌, ◌++◌, map, arith,
  Bool-cases, Option-cases, inl, inr, subst,
}
use mathlib.Core.List.{append_assoc, map-append}
use mirk.Common.Result.{Result, ok, err, Result-cases, ok-injective}
use mirk.Text.{Str}
use mirk.Js.{Number, Js}
use mirk.Fixtures.Layering.{is_patch_document}
use mirk.Fixtures.Shape.{LoadError, Kind, base, ProvenanceLayer, TypeDefinition, Loader}
use mirk.Fixtures.Sources.{ParsedLayer}
use mirk.Fixtures.Validation.{validate_against_schema}
use mirk.Fixtures.Loading.{
  check_patch_refs, Split, split_base, provenance_of, kind_before, apply_patches, from_base,
  combine_layers,
}
use mirk.Fixtures.Reading.{Reading, IsBuiltin, ArePatches, read_layer, read_on, read_layers}
use mirk.Fixtures.Reading.Bases.{
  split_base-ArePatches, split_base-later, split_base-here, split_base-append, place, place_of,
  one_base, bases, bases-append,
}
use mirk.Fixtures.Reading.Patches.{Applied, apply_patches-Applied}

module _ {N : Type 0} ⦃number : Number N⦄ (loader : Loader N) (def : TypeDefinition N)
    (ref : Str) where
  -- Without a base there is nothing to read.
  read_layers-ArePatches :
      (ls : List (ParsedLayer N)) → ArePatches ls → read_layers loader def ref none ls ≡ ok none
  unfolding read_layers read_layer
  read_layers-ArePatches [] a = refl
  read_layers-ArePatches (l ∷ ls) a =
      ap (read_on (λ o. read_layers loader def ref o ls)) (skipped l a.0)
      ∙ read_layers-ArePatches ls a.1
    where
      skipped :
          (k : ParsedLayer N)
          → is_patch_document k.parsed ≡ true
          → read_layer loader def ref none k ≡ ok none
      skipped k is_patch = rw (is_patch, read_layer) refl

  read_on-eq_ok :
      (next : Option (Reading N) → Result LoadError (Option (Reading N)))
      (r : Result LoadError (Option (Reading N))) {o : Option (Reading N)}
      → read_on next r ≡ ok o
      → (o' : Option (Reading N)) × (r ≡ ok o') × (next o' ≡ ok o)
  unfolding read_on
  read_on-eq_ok next (ok o') h = (o', refl, h)
  read_on-eq_ok next (err e) h = cc

  -- What the loader does with the split gives what was read.
  record Built (s : Split N) (r : Reading N) (p : List (ProvenanceLayer N)) : Type 0 where
    first : Js N
    valid :
        validate_against_schema loader def ref s.base_layer.layer.source.id s.base_layer.source_path
          s.base_layer.parsed
        ≡ ok first
    applied :
        Applied loader def ref (record { base_layer = s.base_layer; value = first }) r p s.after

  read_layer-full :
      (o o' : Option (Reading N)) (l : ParsedLayer N)
      → is_patch_document l.parsed ≡ false
      → read_layer loader def ref o l ≡ ok o'
      → (v : Js N) × (validate_against_schema loader def ref l.layer.source.id l.source_path
            l.parsed
          ≡ ok v)
        × (o' ≡ some (record { base_layer = l; value = v }))
  unfolding read_layer
  read_layer-full o o' l full e =
      elim (Result-cases
        (validate_against_schema loader def ref l.layer.source.id l.source_path l.parsed)) [
          | inl (v, valid) ↦
              (v, valid, ok-injective (sym e ∙ rw (full, read_layer) (rw valid refl)))
          | inr (f, invalid) ↦
              let failed : read_layer loader def ref o l ≡ err f =
                rw (full, read_layer) (rw invalid refl) in
              let stuck : err f ≡ ok o' = sym failed ∙ e in absurd (ground (arith, stuck))
        ]

  split_base-Built :
      IsBuiltin def.merge_strategy
      → (o : Option (Reading N)) (ls : List (ParsedLayer N)) (s : Split N) (r : Reading N)
        (p : List (ProvenanceLayer N))
      → split_base ls ≡ some s
      → read_layers loader def ref o ls ≡ ok (some r)
      → Built s r p
  unfolding split_base read_layers
  split_base-Built h o [] s r p e read = absurd (ground (arith, e))
  split_base-Built h o (l ∷ ls) s r p e read =
      let (o', here, later) =
        read_on-eq_ok (λ o. read_layers loader def ref o ls) (read_layer loader def ref o l) read in
      elim (Option-cases (split_base ls)) [
        | inr (s', f) ↦
            let rest = split_base-Built h o' ls s' r p f later in
            let built : Built (record s' { before = l ∷ s'.before }) r p = record {
              first = rest.first;
              valid = rest.valid;
              applied = rest.applied;
            } in
            let same : record s' { before = l ∷ s'.before } ≡ s =
              cc (split_base-later l ls s' f, e) in
            subst (λ x. Built x r p) same built
        | inl n ↦ elim (Bool-cases (is_patch_document l.parsed)) [
          | inl q ↦ absurd (ground (arith, n, q, e))
          | inr full ↦
              let (v, valid, o_eq) = read_layer-full o o' l full here in
              let read' : read_layers loader def ref (some (record { base_layer = l; value = v }))
                    ls
                  ≡ ok (some r) =
                ap (λ x. read_layers loader def ref x ls) (sym o_eq) ∙ later in
              let built : Built (record { before = []; base_layer = l; after = ls }) r p = record {
                first = v;
                valid = valid;
                applied =
                    apply_patches-Applied loader def ref h (record { base_layer = l; value = v }) r
                      p ls (split_base-ArePatches ls n) read';
              } in
              let same : record { before = []; base_layer = l; after = ls } ≡ s =
                cc (split_base-here l ls n full, e) in
              subst (λ x. Built x r p) same built
        ]
      ]

  map-provenance_of :
      (f : ParsedLayer N → Kind) (ls : List (ParsedLayer N))
      → ((l : ParsedLayer N) → one_base (f l) ≡ 0)
      → (map place (map (λ l. provenance_of (f l) l) ls) ≡ map place_of ls)
        × (bases (map (λ l. provenance_of (f l) l) ls) ≡ 0)
  unfolding provenance_of
  map-provenance_of f [] h = (refl, refl)
  map-provenance_of f (l ∷ ls) h =
      let (places, none_base) = map-provenance_of f ls h in
      (ap (λ xs. place_of l ∷ xs) places, omega (arith, none_base, h l))

  combine_layers-from_base :
      (l : ParsedLayer N) (ls : List (ParsedLayer N)) (s : Split N)
      → check_patch_refs ref (l ∷ ls) ≡ ok tt
      → split_base (l ∷ ls) ≡ some s
      → combine_layers loader def ref (l ∷ ls) ≡ from_base loader def ref s
  unfolding combine_layers
  combine_layers-from_base l ls s c f = rw (c, combine_layers) (rw f refl)

  -- The provenance at the start of the patches.
  abbrev start_of : Split N → List (ProvenanceLayer N)
  start_of s =
      map (λ l. provenance_of (kind_before l) l) s.before ++ provenance_of base s.base_layer ∷ []

  from_base-valid :
      (s : Split N) (v : Js N)
      → validate_against_schema loader def ref s.base_layer.layer.source.id s.base_layer.source_path
          s.base_layer.parsed
        ≡ ok v
      → from_base loader def ref s
        ≡ apply_patches loader def ref s.base_layer v (start_of s) s.after
  unfolding from_base
  from_base-valid s v valid = rw (valid, from_base) refl

  kind_before-one_base : (l : ParsedLayer N) → one_base (kind_before l) ≡ 0
  unfolding kind_before
  kind_before-one_base l = ground arith

  places-start_of :
      (s : Split N)
      → (map place (start_of s) ++ map place_of s.after
          ≡ map place_of (s.before ++ s.base_layer ∷ s.after))
        × (bases (start_of s) ≡ 1)
  unfolding provenance_of
  places-start_of s =
      let first = map (λ l. provenance_of (kind_before l) l) s.before in
      let (places, none_base) = map-provenance_of kind_before s.before kind_before-one_base in
      (
        rw
            (
              map-append place first (provenance_of base s.base_layer ∷ []),
              places,
              map-append place_of s.before (s.base_layer ∷ s.after),
            )
            (append_assoc (map place_of s.before) (place_of s.base_layer ∷ [])
              (map place_of s.after)),
        omega (arith, bases-append first (provenance_of base s.base_layer ∷ []), none_base),
      )

  -- With a builtin merge strategy and patches that name the fixture, if reading its layers one
  -- after the other gives a value, where a full document starts anew, a patch whose priority is
  -- at most that of its base is passed over, any other patch is merged, and the schemas check
  -- each document and each merge, then loading the layers gives that value, with a provenance
  -- that names each layer in order and has exactly one base.
  pub combine_layers-read_layers :
      IsBuiltin def.merge_strategy
      → (ls : List (ParsedLayer N)) (r : Reading N) → check_patch_refs ref ls ≡ ok tt
      → read_layers loader def ref none ls ≡ ok (some r)
      → (p : List (ProvenanceLayer N)) × (combine_layers loader def ref ls ≡ ok (r.value, p))
        × (map place p ≡ map place_of ls)
        × (bases p ≡ 1)
  combine_layers-read_layers h [] r c e = absurd (unfold read_layers in ground (arith, e))
  combine_layers-read_layers h (l ∷ ls) r c e = elim (Option-cases (split_base (l ∷ ls))) [
    | inl n ↦
        let stuck : ok none ≡ ok (some r) =
          sym (read_layers-ArePatches (l ∷ ls) (split_base-ArePatches (l ∷ ls) n)) ∙ e in
        absurd (ground (arith, stuck))
    | inr (s, f) ↦
        let built = split_base-Built h none (l ∷ ls) s r (start_of s) f e in
        let (places, one) = places-start_of s in
        (
          built.applied.provenance,
          combine_layers-from_base l ls s c f
              ∙ from_base-valid s built.first built.valid
              ∙ built.applied.applied,
          built.applied.grown.places
              ∙ places
              ∙ ap (map place_of) (sym (split_base-append (l ∷ ls) s f)),
          built.applied.grown.same_bases ∙ one,
        )
  ]
