-- ===== src/Fixtures/Merge/Paths.antt =====
-- A deep merge keeps what the patch does not mention and takes what it says
-- (packages/fixtures/src/layering.ts).
use mirk.Common.{
  ◌≡◌, refl, sym, ap, ◌∙◌, Option, none, some, List, [], ◌∷◌, arith, inl, inr, Option-cases, subst,
}
use mirk.Common.Result.{Result, ok}
use mirk.Text.{Str}
use mirk.Js.{
  Js, undefined, null, opaque, bool, num, str, arr, obj, instance_of, Fields, end, property,
}
use mirk.Fixtures.Shape.{LoadError}
use mirk.Fixtures.Layering.{deep_merge}
use mirk.Fixtures.Merge.{
  IsLeaf, Js-IsLeaf, IsPlain, Clones, or_else-none, property-IsPlain, clone_jsonish-same,
  property-clone_onto, deep_merge-leaf, property-merge_entries, deep_merge-objects, over_leaf,
  Merged,
}

module _ {N : Type 0} where
  -- The value at a path through plain objects.
  pub at_path : List Str → Js N → Option (Js N)
  at_path [] v = some v
  at_path (k ∷ p) (obj fs) = elim (property k fs) [ none ↦ none | some w ↦ at_path p w ]
  at_path (k ∷ p) _ = none

  -- The value leads along the path to an object that does not have the next key.
  abbrev pub Silent : List Str → Js N → Type 0
  Silent [] v = ⊥
  Silent (k ∷ p) (obj fs) = elim (property k fs) [ none ↦ Unit {0} | some w ↦ Silent p w ]
  Silent (k ∷ p) _ = ⊥

  at_path-obj :
      (k : Str) (p : List Str) (fs : Fields N) (v : Js N)
      → property k fs ≡ some v
      → at_path (k ∷ p) (obj fs) ≡ at_path p v
  unfolding at_path
  at_path-obj k p fs v e = rw (e, at_path) refl

  at_path-obj_none :
      (k : Str) (p : List Str) (fs : Fields N)
      → property k fs ≡ none
      → at_path (k ∷ p) (obj fs) ≡ none
  unfolding at_path
  at_path-obj_none k p fs e = rw (e, at_path) refl

  Silent-obj :
      (k : Str) (p : List Str) (fs : Fields N) (w : Js N)
      → Silent (k ∷ p) (obj fs)
      → property k fs ≡ some w
      → Silent p w
  Silent-obj k p fs w h e =
      subst (λ (o : Option (Js N)). elim o [ none ↦ Unit {0} | some x ↦ Silent p x ]) e h

  Silent-none : (p : List Str) (b : Js N) → Silent p b → at_path p b ≡ none
  unfolding at_path
  Silent-none [] b h = absurd h
  Silent-none (k ∷ p) (obj fs) h = elim (Option-cases (property k fs)) [
    | inl n ↦ at_path-obj_none k p fs n
    | inr (w, e) ↦ at_path-obj k p fs w e ∙ Silent-none p w (Silent-obj k p fs w h e)
  ]
  Silent-none (k ∷ p) undefined h = absurd h
  Silent-none (k ∷ p) null h = absurd h
  Silent-none (k ∷ p) opaque h = absurd h
  Silent-none (k ∷ p) (bool x) h = absurd h
  Silent-none (k ∷ p) (num x) h = absurd h
  Silent-none (k ∷ p) (str x) h = absurd h
  Silent-none (k ∷ p) (arr x) h = absurd h
  Silent-none (k ∷ p) (instance_of x) h = absurd h

  at_path-obj_congr :
      (k : Str) (p : List Str) (fs es : Fields N)
      → property k fs ≡ property k es
      → at_path (k ∷ p) (obj fs) ≡ at_path (k ∷ p) (obj es)
  at_path-obj_congr k p fs es e = elim (Option-cases (property k es)) [
    | inl n ↦ at_path-obj_none k p fs (e ∙ n) ∙ sym (at_path-obj_none k p es n)
    | inr (v, f) ↦ at_path-obj k p fs v (e ∙ f) ∙ sym (at_path-obj k p es v f)
  ]

  leaf-at_path : (k : Str) (p : List Str) (a : Js N) → IsLeaf a → at_path (k ∷ p) a ≡ none
  unfolding at_path
  leaf-at_path k p (obj fs) h = absurd h
  leaf-at_path k p undefined h = refl
  leaf-at_path k p null h = refl
  leaf-at_path k p opaque h = refl
  leaf-at_path k p (bool x) h = refl
  leaf-at_path k p (num x) h = refl
  leaf-at_path k p (str x) h = refl
  leaf-at_path k p (arr x) h = refl
  leaf-at_path k p (instance_of x) h = refl

module _ {N : Type 0} (clone : Js N → Result LoadError (Js N)) (clones : Clones clone) where
  takes_step :
      (p : List Str) (w u v : Js N) (o : Option (Js N))
      → Merged clone clones o w u
      → ((old : Js N) → deep_merge clone w old ≡ ok u → at_path p u ≡ some v)
      → at_path p w ≡ some v
      → at_path p u ≡ some v
  unfolding Merged
  takes_step p w u v none h ih e = ap (at_path p) h ∙ e
  takes_step p w u v (some old) h ih e = ih old h

  -- What the patch says at a path is what the merge has there.
  at_path-takes :
      (p : List Str) (b a m v : Js N)
      → IsPlain b
      → deep_merge clone b a ≡ ok m
      → at_path p b ≡ some v
      → IsLeaf v
      → at_path p m ≡ some v
  unfolding at_path IsPlain
  at_path-takes [] b a m v hb e h leaf =
      let bv : b ≡ v = cc h in
      let leaf' = subst (λ (x : Js N). IsLeaf x) (sym bv) leaf in
      ap (λ (x : Js N). some x)
        (clone_jsonish-same clone clones b m hb (sym (deep_merge-leaf clone clones b a leaf') ∙ e)
          ∙ bv)
  at_path-takes (k ∷ p) (obj fs) a m v hb e h leaf = elim (Js-IsLeaf a) [
    | inr l ↦ ap (at_path (k ∷ p)) (over_leaf clone clones fs a m hb l e) ∙ h
    | inl (es, ea) ↦
        let (out, merged, c₁, c₂, em) =
          deep_merge-objects clone clones fs es m
            (ap (λ x. deep_merge clone (obj fs) x) (sym ea) ∙ e) in
        let (kept, takes) = property-merge_entries clone clones fs es out merged k hb.0 hb.1 c₂ in
        elim (Option-cases (property k fs)) [
          | inl n ↦ absurd (ground (arith, at_path-obj_none k p fs n, h))
          | inr (w, fw) ↦
              let (u, eu, mu) = takes w fw in
              let there : at_path p w ≡ some v = sym (at_path-obj k p fs w fw) ∙ h in
              ap (at_path (k ∷ p)) em
              ∙ at_path-obj k p merged u eu
              ∙ takes_step p w u v (property k es) mu
                  (λ old d.
                    at_path-takes p w old u v (property-IsPlain k fs w hb.1 fw) d there leaf)
                  there
        ]
  ]
  at_path-takes (k ∷ p) undefined a m v hb e h leaf = absurd (ground (arith, h))
  at_path-takes (k ∷ p) null a m v hb e h leaf = absurd (ground (arith, h))
  at_path-takes (k ∷ p) opaque a m v hb e h leaf = absurd (ground (arith, h))
  at_path-takes (k ∷ p) (bool x) a m v hb e h leaf = absurd (ground (arith, h))
  at_path-takes (k ∷ p) (num x) a m v hb e h leaf = absurd (ground (arith, h))
  at_path-takes (k ∷ p) (str x) a m v hb e h leaf = absurd (ground (arith, h))
  at_path-takes (k ∷ p) (arr x) a m v hb e h leaf = absurd (ground (arith, h))
  at_path-takes (k ∷ p) (instance_of x) a m v hb e h leaf = absurd (ground (arith, h))

  keeps_step :
      (k : Str) (p : List Str) (es : Fields N) (w u : Js N) (o : Option (Js N))
      → property k es ≡ o
      → Merged clone clones o w u
      → ((old : Js N)
          → property k es ≡ some old
          → deep_merge clone w old ≡ ok u
          → at_path p u ≡ at_path p old)
      → at_path p w ≡ none
      → at_path p u ≡ at_path (k ∷ p) (obj es)
  unfolding Merged
  keeps_step k p es w u none f h ih n = ap (at_path p) h ∙ n ∙ sym (at_path-obj_none k p es f)
  keeps_step k p es w u (some old) f h ih n = ih old f h ∙ sym (at_path-obj k p es old f)

  at_path-keeps :
      (p : List Str) (b a m : Js N)
      → IsPlain b
      → IsPlain a
      → deep_merge clone b a ≡ ok m
      → Silent p b
      → at_path p m ≡ at_path p a
  unfolding IsPlain property
  at_path-keeps [] b a m hb ha e h = absurd h
  at_path-keeps (k ∷ p) (obj fs) a m hb ha e h = elim (Js-IsLeaf a) [
    | inr l ↦
        ap (at_path (k ∷ p)) (over_leaf clone clones fs a m hb l e)
        ∙ Silent-none (k ∷ p) (obj fs) h
        ∙ sym (leaf-at_path k p a l)
    | inl (es, ea) ↦
        let (out, merged, c₁, c₂, em) =
          deep_merge-objects clone clones fs es m
            (ap (λ x. deep_merge clone (obj fs) x) (sym ea) ∙ e) in
        let ha' = subst (λ (x : Js N). IsPlain x) ea ha in
        let (kept, takes) = property-merge_entries clone clones fs es out merged k hb.0 hb.1 c₂ in
        let start : property k out ≡ property k es =
          property-clone_onto clone clones es end out k ha'.0 ha'.1 c₁
          ∙ or_else-none (property k es) in
        let below : at_path (k ∷ p) (obj merged) ≡ at_path (k ∷ p) (obj es) =
          elim (Option-cases (property k fs)) [
            | inl n ↦ at_path-obj_congr k p merged es (kept n ∙ start)
            | inr (w, fw) ↦
                let (u, eu, mu) = takes w fw in
                let sw = Silent-obj k p fs w h fw in
                at_path-obj k p merged u eu
                ∙ keeps_step k p es w u (property k es) refl mu
                    (λ old f d.
                      at_path-keeps p w old u (property-IsPlain k fs w hb.1 fw)
                        (property-IsPlain k es old ha'.1 f) d sw)
                    (Silent-none p w sw)
          ] in
        ap (at_path (k ∷ p)) em ∙ below ∙ ap (at_path (k ∷ p)) (sym ea)
  ]
  at_path-keeps (k ∷ p) undefined a m hb ha e h = absurd h
  at_path-keeps (k ∷ p) null a m hb ha e h = absurd h
  at_path-keeps (k ∷ p) opaque a m hb ha e h = absurd h
  at_path-keeps (k ∷ p) (bool x) a m hb ha e h = absurd h
  at_path-keeps (k ∷ p) (num x) a m hb ha e h = absurd h
  at_path-keeps (k ∷ p) (str x) a m hb ha e h = absurd h
  at_path-keeps (k ∷ p) (arr x) a m hb ha e h = absurd h
  at_path-keeps (k ∷ p) (instance_of x) a m hb ha e h = absurd h

  -- If structuredClone gives equal values, where it gives any, for values without objects of a
  -- class, and both values are such values, with no key twice in an object and none that is
  -- `__proto__`, a deep merge that gives a value has, at each path, what the incoming value has
  -- there if that is no plain object, and what the existing value has, or has not, where the
  -- incoming value leads to a plain object without the next key.
  pub at_path-deep_merge :
      (p : List Str) (existing incoming merged : Js N)
      → IsPlain existing
      → IsPlain incoming
      → deep_merge clone incoming existing ≡ ok merged
      → ((v : Js N) → at_path p incoming ≡ some v → IsLeaf v → at_path p merged ≡ some v)
        × (Silent p incoming → at_path p merged ≡ at_path p existing)
  at_path-deep_merge p existing incoming merged he hi e = (
    λ v h leaf. at_path-takes p incoming existing merged v hi e h leaf,
    λ h. at_path-keeps p incoming existing merged hi he e h,
  )
