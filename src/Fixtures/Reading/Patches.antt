-- ===== src/Fixtures/Reading/Patches.antt =====
-- The loop over the layers after the base reads them (packages/fixtures/src/loader.ts).
use mirk.Common.{
  ◌≡◌, refl, sym, ap, ◌∙◌, true, false, Option, none, some, List, [], ◌∷◌, ◌++◌, map, arith,
  Bool-cases, inl, inr,
}
use mathlib.Core.List.{append-nil}
use mirk.Common.Result.{Result, ok, err, Result-cases}
use mirk.Text.{Str}
use mirk.Js.{Number, Js}
use mirk.Fixtures.Layering.{is_patch_document, patch_body, merge_with_strategy, provenance_ctx}
use mirk.Fixtures.Shape.{
  LoadError, patch, shadowed, ContextLayer, ProvenanceLayer, MergeStrategy, replace_with, deep,
  array_replace, custom, TypeDefinition, Loader,
}
use mirk.Fixtures.Sources.{ParsedLayer}
use mirk.Fixtures.Loading.{provenance_of, is_above, apply_patch, apply_patches}
use mirk.Fixtures.Reading.{
  Reading, IsBuiltin, ArePatches, at_or_below, patched, read_layer, read_on, read_layers,
}
use mirk.Fixtures.Reading.Bases.{place, Grown, Grown-cons}

merge_with_strategy-builtin :
    {N : Type 0} (clone : Js N → Result LoadError (Js N)) (s : Option (MergeStrategy N))
    (a b : Js N) (ref : Str) (c c' : List (ContextLayer N))
    → IsBuiltin s
    → merge_with_strategy clone s a b ref c ≡ merge_with_strategy clone s a b ref c'
unfolding merge_with_strategy
merge_with_strategy-builtin clone none a b ref c c' h = refl
merge_with_strategy-builtin clone (some replace_with) a b ref c c' h = refl
merge_with_strategy-builtin clone (some deep) a b ref c c' h = refl
merge_with_strategy-builtin clone (some array_replace) a b ref c c' h = refl
merge_with_strategy-builtin clone (some (custom f)) a b ref c c' h = absurd h

module _ {N : Type 0} ⦃number : Number N⦄ (loader : Loader N) (def : TypeDefinition N)
    (ref : Str) where
  pub apply_patch-builtin :
      IsBuiltin def.merge_strategy
      → (l : ParsedLayer N) (v : Js N) (p : List (ProvenanceLayer N))
      → apply_patch loader def ref l v p ≡ apply_patch loader def ref l v []
  unfolding apply_patch
  apply_patch-builtin h l v p =
      rw
        (
          merge_with_strategy-builtin loader.structured_clone def.merge_strategy v
              (patch_body l.parsed) ref (provenance_ctx p) (provenance_ctx []) h,
          apply_patch,
        )
        refl

  apply_patch-patched :
      (l : ParsedLayer N) (v : Js N)
      → apply_patch loader def ref l v [] ≡ patched loader def ref l v
  unfolding apply_patch patched provenance_ctx
  apply_patch-patched l v = refl

  -- A patch that is not above its base changes nothing.
  pub apply_patches-low :
      (b l : ParsedLayer N) (v : Js N) (p : List (ProvenanceLayer N)) (ls : List (ParsedLayer N))
      → is_patch_document l.parsed ≡ true
      → is_above b l ≡ false
      → apply_patches loader def ref b v p (l ∷ ls)
        ≡ apply_patches loader def ref b v (p ++ provenance_of shadowed l ∷ []) ls
  unfolding apply_patches
  apply_patches-low b l v p ls is_patch low = rw (is_patch, apply_patches) (rw low refl)

  pub apply_patches-above :
      (b l : ParsedLayer N) (v w : Js N) (p : List (ProvenanceLayer N)) (ls : List (ParsedLayer N))
      → is_patch_document l.parsed ≡ true
      → is_above b l ≡ true
      → apply_patch loader def ref l v p ≡ ok w
      → apply_patches loader def ref b v p (l ∷ ls)
        ≡ apply_patches loader def ref b w (p ++ provenance_of patch l ∷ []) ls
  unfolding apply_patches
  apply_patches-above b l v w p ls is_patch above applied =
      rw (is_patch, apply_patches) (rw above (rw applied refl))

  pub read_layer-low :
      (r : Reading N) (l : ParsedLayer N)
      → is_patch_document l.parsed ≡ true
      → is_above r.base_layer l ≡ false
      → read_layer loader def ref (some r) l ≡ ok (some r)
  unfolding read_layer is_above
  read_layer-low r l is_patch low =
      let below : at_or_below loader def ref l r.base_layer ≡ true = ground arith in
      rw (is_patch, read_layer) (rw below refl)

  pub read_layer-applied :
      (r : Reading N) (l : ParsedLayer N) (v : Js N)
      → is_patch_document l.parsed ≡ true
      → is_above r.base_layer l ≡ true
      → apply_patch loader def ref l r.value [] ≡ ok v
      → read_layer loader def ref (some r) l ≡ ok (some (record r { value = v }))
  unfolding read_layer is_above
  read_layer-applied r l v is_patch above done =
      let high : at_or_below loader def ref l r.base_layer ≡ false = ground arith in
      rw (is_patch, read_layer) (rw high (rw (sym (apply_patch-patched l r.value) ∙ done) refl))

  pub read_layer-failed :
      (r : Reading N) (l : ParsedLayer N) (f : LoadError)
      → is_patch_document l.parsed ≡ true
      → is_above r.base_layer l ≡ true
      → apply_patch loader def ref l r.value [] ≡ err f
      → read_layer loader def ref (some r) l ≡ err f
  unfolding read_layer is_above
  read_layer-failed r l f is_patch above failed =
      let high : at_or_below loader def ref l r.base_layer ≡ false = ground arith in
      rw (is_patch, read_layer) (rw high (rw (sym (apply_patch-patched l r.value) ∙ failed) refl))

  -- The loop over the layers after the base has read them.
  pub record Applied (r r' : Reading N) (p : List (ProvenanceLayer N)) (ls : List (ParsedLayer N))
      : Type 0 where
    pub provenance : List (ProvenanceLayer N)
    pub applied : apply_patches loader def ref r.base_layer r.value p ls ≡ ok (r'.value, provenance)
    pub grown : Grown p ls provenance

  pub apply_patches-Applied :
      IsBuiltin def.merge_strategy
      → (r r' : Reading N) (p : List (ProvenanceLayer N)) (ls : List (ParsedLayer N))
      → ArePatches ls
      → read_layers loader def ref (some r) ls ≡ ok (some r')
      → Applied r r' p ls
  unfolding read_layers
  apply_patches-Applied h r r' p [] a e =
      let same : r ≡ r' = cc e in
      record {
        provenance = p;
        applied = unfold apply_patches in ap (λ (x : Reading N). ok (x.value, p)) same;
        grown = record { places = sym (append-nil (map place p)); same_bases = refl };
      }
  apply_patches-Applied h r r' p (l ∷ ls) a e = elim (Bool-cases (is_above r.base_layer l)) [
    | inr low ↦
        let p₁ = p ++ provenance_of shadowed l ∷ [] in
        let read : read_layers loader def ref (some r) ls ≡ ok (some r') =
          ap (read_on (λ o. read_layers loader def ref o ls)) (sym (read_layer-low r l a.0 low))
          ∙ e in
        let rest = apply_patches-Applied h r r' p₁ ls a.1 read in
        record {
          provenance = rest.provenance;
          applied = apply_patches-low r.base_layer l r.value p ls a.0 low ∙ rest.applied;
          grown = Grown-cons p rest.provenance shadowed l ls refl rest.grown;
        }
    | inl above ↦ elim (Result-cases (apply_patch loader def ref l r.value [])) [
      | inr (f, failed) ↦
          let stuck : err f ≡ ok (some r') =
            ap (read_on (λ o. read_layers loader def ref o ls))
              (sym (read_layer-failed r l f a.0 above failed))
            ∙ e in
          absurd (ground (arith, stuck))
      | inl (v, done) ↦
          let r₁ : Reading N = record r { value = v } in
          let p₁ = p ++ provenance_of patch l ∷ [] in
          let read : read_layers loader def ref (some r₁) ls ≡ ok (some r') =
            ap (read_on (λ o. read_layers loader def ref o ls))
              (sym (read_layer-applied r l v a.0 above done))
            ∙ e in
          let rest = apply_patches-Applied h r₁ r' p₁ ls a.1 read in
          record {
            provenance = rest.provenance;
            applied =
                apply_patches-above r.base_layer l r.value v p ls a.0 above
                  (apply_patch-builtin h l r.value p ∙ done)
                ∙ rest.applied;
            grown = Grown-cons p rest.provenance patch l ls refl rest.grown;
          }
    ]
  ]
