-- ===== src/Fixtures/Reading.antt =====
-- What the layers of a fixture give when they are read one after the other: a reference for the loader
-- (packages/fixtures/src/loader.ts), which starts at the last document that is no patch.
pub mod Bases
pub mod Patches
pub mod Value
use mirk.Common.{◌≡◌, Bool, ◌||◌, refl, true, false, Option, none, some, List, [], ◌∷◌, All}
use mirk.Common.Result.{Result, ok, err}
use mirk.Text.{Str}
use mirk.Js.{Number, Js}
use mirk.Fixtures.Layering.{is_patch_document, patch_body, merge_with_strategy}
use mirk.Fixtures.Shape.{LoadError, MergeStrategy, custom, TypeDefinition, Loader}
use mirk.Fixtures.Sources.{ParsedLayer}
use mirk.Fixtures.Validation.{validate_against_schema}

-- A document that has been read, with the patches since.
pub record Reading (N : Type 0) : Type 0 where
  pub base_layer : ParsedLayer N
  pub value : Js N

-- The strategy merges without a look at the provenance.
abbrev pub IsBuiltin : {N : Type 0} → Option (MergeStrategy N) → Type 0
IsBuiltin (some (custom f)) = ⊥
IsBuiltin _ = Unit {0}

abbrev pub ArePatches : {N : Type 0} → List (ParsedLayer N) → Type 0
ArePatches = All (λ l. is_patch_document l.parsed ≡ true)

unfoldable pub read_on :
    {N : Type 0}
    → (Option (Reading N) → Result LoadError (Option (Reading N)))
    → Result LoadError (Option (Reading N))
    → Result LoadError (Option (Reading N))
read_on next (err e) = err e
read_on next (ok o) = next o

module _ {N : Type 0} ⦃number : Number N⦄ (loader : Loader N) (def : TypeDefinition N)
    (ref : Str) where
  -- The priority of a layer is at most that of another.
  abbrev pub at_or_below : ParsedLayer N → ParsedLayer N → Bool
  at_or_below l k =
      number.lt l.layer.priority k.layer.priority || number.eq l.layer.priority k.layer.priority

  -- What a patch makes of a value: the two merged as the type wants it, if the schemas take that.
  unfoldable pub patched : ParsedLayer N → Js N → Result LoadError (Js N)
  patched l v =
      elim (merge_with_strategy loader.structured_clone def.merge_strategy v (patch_body l.parsed)
        ref []) [
          | err e ↦ err e
          | ok merged ↦
              validate_against_schema loader def ref l.layer.source.id l.source_path merged
        ]

  -- A full document replaces what was read before it; a patch changes what its base gave, if it has
  -- one, unless its priority is at most that of the base.
  unfoldable pub read_layer :
      Option (Reading N) → ParsedLayer N → Result LoadError (Option (Reading N))
  unfolding patched
  read_layer o l = elim (is_patch_document l.parsed) [
    | false ↦
        elim (validate_against_schema loader def ref l.layer.source.id l.source_path l.parsed) [
          | err e ↦ err e
          | ok v ↦ ok (some (record { base_layer = l; value = v }))
        ]
    | true ↦ elim o [
      | none ↦ ok none
      | some r ↦ elim (at_or_below l r.base_layer) [
        | true ↦ ok (some r)
        | false ↦ elim (patched l r.value) [
          | err e ↦ err e
          | ok v ↦ ok (some (record r { value = v }))
        ]
      ]
    ]
  ]

  unfoldable pub read_layers :
      Option (Reading N) → List (ParsedLayer N) → Result LoadError (Option (Reading N))
  unfolding read_layer read_on
  read_layers o [] = ok o
  read_layers o (l ∷ ls) = read_on (λ o'. read_layers o' ls) (read_layer o l)
