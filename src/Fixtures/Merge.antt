-- ===== src/Fixtures/Merge.antt =====
-- The properties of a deep merge (packages/fixtures/src/layering.ts).
pub mod Paths
use mirk.Common.{
  ◌≡◌, refl, sym, ap, ◌∙◌, Bool, false, Option, none, some, ◌⊎◌, [], ◌∷◌, arith, inl, inr,
  Bool-cases, Option-cases, if◌then◌else◌, subst,
}
use mirk.Common.Result.{Result, ok, ◌>>=◌, >>=-eq-ok, ok-injective}
use mirk.Text.{Str, ascii, str_eq}
use mirk.Text.Units.{str_eq_iff}
use mirk.Js.{
  Js, undefined, null, opaque, bool, num, str, arr, obj, instance_of, Items, nil, cons, hole,
  Fields, end, field, property,
}
use mirk.Fixtures.Shape.{LoadError}
use mirk.Fixtures.Layering.{
  put_field, set_field, clone_jsonish, clone_onto, deep_merge, merge_entries,
}

module _ {N : Type 0} where
  property-put_field :
      (k j : Str) (v : Js N) (fs : Fields N)
      → property j (put_field k v fs) ≡ (if str_eq k j then some v else property j fs)
  unfolding property put_field
  property-put_field k j v end = refl
  property-put_field k j v (field i w fs) =
      ground (arith, str_eq_iff k j, str_eq_iff i k, str_eq_iff i j, property-put_field k j v fs)

  property-set_field :
      (k j : Str) (v : Js N) (fs : Fields N)
      → str_eq k (ascii "__proto__") ≡ false
      → property j (set_field k v fs) ≡ (if str_eq k j then some v else property j fs)
  unfolding set_field
  property-set_field k j v fs own = rw own (property-put_field k j v fs)

  -- Each key once, and none the one of the prototype.
  abbrev pub AreKeys : Fields N → Type 0
  AreKeys end = Unit {0}
  AreKeys (field k v fs) =
      (property k fs ≡ none) × (str_eq k (ascii "__proto__") ≡ false) × AreKeys fs

  unfoldable mutual
    -- No object of a class at any depth, and in the plain ones such keys.
    pub IsPlain : Js N → Type 0
    IsPlain (obj fs) = AreKeys fs × ArePlain fs
    IsPlain (arr xs) = AreItemsPlain xs
    IsPlain (instance_of fs) = ⊥
    IsPlain _ = Unit {0}

    pub ArePlain : Fields N → Type 0
    ArePlain end = Unit {0}
    ArePlain (field k v fs) = IsPlain v × ArePlain fs

    pub AreItemsPlain : Items N → Type 0
    AreItemsPlain nil = Unit {0}
    AreItemsPlain (cons v xs) = IsPlain v × AreItemsPlain xs
    AreItemsPlain (hole xs) = AreItemsPlain xs

  -- `structuredClone` gives back an equal value, where it gives one for a value without objects of
  -- a class.
  abbrev pub Clones : (Js N → Result LoadError (Js N)) → Type 0
  Clones clone = (v w : Js N) → IsPlain v → clone v ≡ ok w → w ≡ v

  pub property-IsPlain :
      (k : Str) (fs : Fields N) (v : Js N) → ArePlain fs → property k fs ≡ some v → IsPlain v
  unfolding property IsPlain
  property-IsPlain k end v h e = absurd (ground (arith, e))
  property-IsPlain k (field j w fs) v h e = elim (Bool-cases (str_eq j k)) [
    | inl same ↦
        let e' : some w ≡ some v = ground (arith, e) in
        let wv : w ≡ v = cc e' in subst (λ (x : Js N). IsPlain x) wv h.0
    | inr other ↦ property-IsPlain k fs v h.1 (ground (arith, e))
  ]

  abbrev pub IsLeaf : Js N → Type 0
  IsLeaf (obj fs) = ⊥
  IsLeaf _ = Unit {0}

  pub Js-IsLeaf : (v : Js N) → ((fs : Fields N) × (v ≡ obj fs)) ⊎ IsLeaf v
  Js-IsLeaf (obj fs) = inl (fs, refl)
  Js-IsLeaf undefined = inr tt
  Js-IsLeaf null = inr tt
  Js-IsLeaf opaque = inr tt
  Js-IsLeaf (bool x) = inr tt
  Js-IsLeaf (num x) = inr tt
  Js-IsLeaf (str x) = inr tt
  Js-IsLeaf (arr x) = inr tt
  Js-IsLeaf (instance_of x) = inr tt

  -- A key of the clones, or one that was there.
  abbrev pub or_else : Option (Js N) → Option (Js N) → Option (Js N)
  or_else none o = o
  or_else (some v) o = some v

  pub or_else-none : (o : Option (Js N)) → or_else o none ≡ o
  or_else-none none = refl
  or_else-none (some v) = refl

module _ {N : Type 0} (clone : Js N → Result LoadError (Js N)) (clones : Clones clone) where
  pub clone_jsonish-same : (v w : Js N) → IsPlain v → clone_jsonish clone v ≡ ok w → w ≡ v
  unfolding clone_jsonish
  clone_jsonish-same (arr xs) w h e = clones (arr xs) w h e
  clone_jsonish-same (obj fs) w h e = clones (obj fs) w h e
  clone_jsonish-same (instance_of fs) w h e = clones (instance_of fs) w h e
  clone_jsonish-same undefined w h e = sym (ok-injective e)
  clone_jsonish-same null w h e = sym (ok-injective e)
  clone_jsonish-same opaque w h e = sym (ok-injective e)
  clone_jsonish-same (bool b) w h e = sym (ok-injective e)
  clone_jsonish-same (num n) w h e = sym (ok-injective e)
  clone_jsonish-same (str s) w h e = sym (ok-injective e)

  pub property-clone_onto :
      (fs out out' : Fields N) (k : Str)
      → AreKeys fs
      → ArePlain fs
      → clone_onto clone fs out ≡ ok out'
      → property k out' ≡ or_else (property k fs) (property k out)
  unfolding clone_onto property IsPlain
  property-clone_onto end out out' k a h e = ap (property k) (sym (ok-injective e))
  property-clone_onto (field j v fs) out out' k a h e =
      let (w, e₁, e₂) =
        >>=-eq-ok (clone_jsonish clone v) (λ w. clone_onto clone fs (set_field j w out)) e in
      let same = clone_jsonish-same v w h.0 e₁ in
      let rest = property-clone_onto fs (set_field j w out) out' k a.2 h.1 e₂ in
      ground (
        arith,
        rest,
        same,
        property-set_field j k w out a.1,
        str_eq_iff j k,
        ap (λ i. property i fs),
        a.0,
      )

  pub deep_merge-leaf : (b a : Js N) → IsLeaf b → deep_merge clone b a ≡ clone_jsonish clone b
  unfolding deep_merge
  deep_merge-leaf (obj fs) a h = absurd h
  deep_merge-leaf undefined a h = refl
  deep_merge-leaf null a h = refl
  deep_merge-leaf opaque a h = refl
  deep_merge-leaf (bool x) a h = refl
  deep_merge-leaf (num x) a h = refl
  deep_merge-leaf (str x) a h = refl
  deep_merge-leaf (arr x) a h = refl
  deep_merge-leaf (instance_of x) a h = refl

  deep_merge-over_leaf :
      (fs : Fields N) (a : Js N)
      → IsLeaf a
      → deep_merge clone (obj fs) a ≡ clone_jsonish clone (obj fs)
  unfolding deep_merge
  deep_merge-over_leaf fs (obj es) h = absurd h
  deep_merge-over_leaf fs undefined h = refl
  deep_merge-over_leaf fs null h = refl
  deep_merge-over_leaf fs opaque h = refl
  deep_merge-over_leaf fs (bool x) h = refl
  deep_merge-over_leaf fs (num x) h = refl
  deep_merge-over_leaf fs (str x) h = refl
  deep_merge-over_leaf fs (arr x) h = refl
  deep_merge-over_leaf fs (instance_of x) h = refl

  -- What a merge has at a key of the patch.
  unfoldable pub Merged : Option (Js N) → Js N → Js N → Type 0
  Merged none v w = w ≡ v
  Merged (some old) v w = deep_merge clone v old ≡ ok w

  merged_value : Option (Js N) → Js N → Result LoadError (Js N)
  merged_value none v = clone_jsonish clone v
  merged_value (some old) v = deep_merge clone v old

  merged_value-Merged :
      (o : Option (Js N)) (v w : Js N) → IsPlain v → merged_value o v ≡ ok w → Merged o v w
  unfolding merged_value Merged
  merged_value-Merged none v w h e = clone_jsonish-same v w h e
  merged_value-Merged (some old) v w h e = e

  merge_entries-end : (es out : Fields N) → merge_entries clone end es out ≡ ok out
  unfolding deep_merge
  merge_entries-end es out = refl

  merge_entries-cons :
      (j : Str) (v : Js N) (fs es out : Fields N)
      → merge_entries clone (field j v fs) es out
        ≡ (merged_value (property j es) v >>= λ w. merge_entries clone fs es (set_field j w out))
  unfolding deep_merge merged_value
  merge_entries-cons j v fs es out = elim (Option-cases (property j es)) [
    | inl n ↦ rw n refl
    | inr (old, n) ↦ rw n refl
  ]

  -- A key that the patch does not have keeps its value; one that it has is merged.
  pub property-merge_entries :
      (fs es out out' : Fields N) (k : Str)
      → AreKeys fs
      → ArePlain fs
      → merge_entries clone fs es out ≡ ok out'
      → (property k fs ≡ none → property k out' ≡ property k out)
        × ((v : Js N)
            → property k fs ≡ some v
            → (w : Js N) × (property k out' ≡ some w) × Merged (property k es) v w)
  unfolding property IsPlain
  property-merge_entries end es out out' k a h e =
      let same : out ≡ out' = ok-injective (sym (merge_entries-end es out) ∙ e) in
      (λ n. ap (property k) (sym same), λ v n. absurd (ground (arith, n)))
  property-merge_entries (field j v fs) es out out' k a h e =
      let (w, e₁, e₂) =
        >>=-eq-ok (merged_value (property j es) v)
          (λ w. merge_entries clone fs es (set_field j w out))
          (sym (merge_entries-cons j v fs es out) ∙ e) in
      let (kept, merged) = property-merge_entries fs es (set_field j w out) out' k a.2 h.1 e₂ in
      elim (Bool-cases (str_eq j k)) [
        | inr other ↦ (
          λ n. kept (ground (arith, n)) ∙ ground (arith, property-set_field j k w out a.1),
          λ x n. merged x (ground (arith, n)),
        )
        | inl same ↦
            let jk = (str_eq_iff j k).0 same in
            let gone : property k fs ≡ none = ap (λ i. property i fs) (sym jk) ∙ a.0 in
            let here : property k out' ≡ some w =
              kept gone ∙ ground (arith, property-set_field j k w out a.1) in
            (
              λ n. absurd (ground (arith, n)),
              λ x n.
                  let vx : v ≡ x = ground (arith, n) in
                  (
                    w,
                    here,
                    subst (λ i. Merged (property i es) x w) jk
                        (subst (λ (y : Js N). Merged (property j es) y w) vx
                          (merged_value-Merged (property j es) v w h.0 e₁)),
                  ),
            )
      ]

  pub deep_merge-objects :
      (fs es : Fields N) (m : Js N)
      → deep_merge clone (obj fs) (obj es) ≡ ok m
      → (out merged : Fields N) × (clone_onto clone es end ≡ ok out)
        × (merge_entries clone fs es out ≡ ok merged)
        × (m ≡ obj merged)
  unfolding deep_merge
  deep_merge-objects fs es m e =
      let (out, e₁, e₂) =
        >>=-eq-ok (clone_onto clone es end)
          (λ out. merge_entries clone fs es out >>= λ merged. ok (obj merged)) e in
      let (merged, e₃, e₄) =
        >>=-eq-ok (merge_entries clone fs es out) (λ merged. ok (obj merged)) e₂ in
      (out, merged, e₁, e₃, sym (ok-injective e₄))

  -- An object over a leaf replaces it.
  pub over_leaf :
      (fs : Fields N) (a m : Js N)
      → IsPlain (obj fs)
      → IsLeaf a
      → deep_merge clone (obj fs) a ≡ ok m
      → m ≡ obj fs
  over_leaf fs a m p h e = clone_jsonish-same (obj fs) m p (sym (deep_merge-over_leaf fs a h) ∙ e)
