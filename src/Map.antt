-- ===== src/Map.antt =====
-- JavaScript's `Map` with string keys: entries in insertion order, one for each key.
pub mod Laws
use mirk.Common.{Bool, true, false, Option, none, some, List, [], ◌∷◌, map, if◌then◌else◌}
use mirk.Text.{Str, str_eq}

abbrev pub Map {ℓ} : Type ℓ → Type ℓ
Map V = List (Str × V)

module _ {ℓ} {V : Type ℓ} where
  unfoldable pub get : Str → Map V → Option V
  get k [] = none
  get k ((j, v) ∷ m) = if str_eq j k then some v else get k m

  -- An old key keeps its place; a new one goes to the end.
  unfoldable pub set : Str → V → Map V → Map V
  set k v [] = (k, v) ∷ []
  set k v ((j, w) ∷ m) = if str_eq j k then (k, v) ∷ m else (j, w) ∷ set k v m

  unfoldable pub remove : Str → Map V → Map V
  remove k [] = []
  remove k ((j, v) ∷ m) = let rest = remove k m in if str_eq j k then rest else (j, v) ∷ rest

  unfoldable pub has : Str → Map V → Bool
  has k m = elim (get k m) [ none ↦ false | some v ↦ true ]

  unfoldable pub keys : Map V → List Str
  keys m = map (λ e. e.0) m

  unfoldable pub values : Map V → List V
  values m = map (λ e. e.1) m
