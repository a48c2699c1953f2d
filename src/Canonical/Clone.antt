-- ===== src/Canonical/Clone.antt =====
-- Cloning a plain object clones its properties (packages/store/src/atomic.ts): the order of its
-- members changes, what it answers for a key does not.
use mirk.Common.{◌≡◌, refl, ap, ◌∙◌, Option, none, some, List, [], ◌∷◌, arith, if◌then◌else◌}
use mirk.Text.{Str, str_eq, compare_code_points}
use mirk.Text.Units.{str_eq_iff}
use mirk.Sort.{insert, sort}
use mirk.Js.{Js, Fields, end, field, property, or_undefined, at, from_entries}
use mirk.Canonical.{by_key, clone_json, clone_fields, clone_object}

module _ {N : Type 0} (k : Str) where
  property-insert :
      (j : Str) (v : Js N) (es : List (Str × Js N))
      → property k (from_entries (insert by_key (j, v) es))
        ≡ (if str_eq j k then some v else property k (from_entries es))
  unfolding insert from_entries property compare_code_points
  property-insert j v [] = refl
  property-insert j v ((i, w) ∷ es) =
      ground (arith, property-insert j v es, str_eq_iff j i, str_eq_iff j k, str_eq_iff i k)

  property-sort :
      (es : List (Str × Js N))
      → property k (from_entries (sort by_key es)) ≡ property k (from_entries es)
  unfolding sort property from_entries
  property-sort [] = refl
  property-sort ((j, v) ∷ es) =
      ground (arith, property-insert j v (sort by_key es), property-sort es)

  abbrev clone_option : Option (Js N) → Option (Js N)
  clone_option none = none
  clone_option (some v) = some (clone_json v)

  property-clone_fields :
      (fs : Fields N) → property k (from_entries (clone_fields fs)) ≡ clone_option (property k fs)
  unfolding property clone_json from_entries
  property-clone_fields end = refl
  property-clone_fields (field j v fs) = ground (arith, property-clone_fields fs)

  clone-or_undefined :
      (o : Option (Js N)) → or_undefined (clone_option o) ≡ clone_json (or_undefined o)
  unfolding or_undefined clone_json
  clone-or_undefined none = refl
  clone-or_undefined (some v) = refl

  -- A cloned plain object answers every key with the clone of what the object answers, whatever
  -- the order of its members.
  pub at-clone_object : (fs : Fields N) → at k (clone_object fs) ≡ clone_json (at k fs)
  unfolding at clone_object
  at-clone_object fs =
      ap or_undefined (property-sort (clone_fields fs) ∙ property-clone_fields fs)
      ∙ clone-or_undefined (property k fs)
