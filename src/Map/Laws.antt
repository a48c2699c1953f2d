-- ===== src/Map/Laws.antt =====
-- What a `Map` answers after a write.
use mirk.Common.{◌≡◌, refl, none, some, [], ◌∷◌, arith, if◌then◌else◌}
use mirk.Text.{Str, str_eq}
use mirk.Text.Units.{str_eq_iff}
use mirk.Map.{Map, get, set, remove}

module _ {ℓ} {V : Type ℓ} where
  pub get-set :
      (k j : Str) (v : V) (m : Map V) → get j (set k v m) ≡ (if str_eq k j then some v else get j m)
  unfolding get set
  get-set k j v [] = refl
  get-set k j v ((i, w) ∷ m) =
      ground (arith, str_eq_iff k j, str_eq_iff i k, str_eq_iff i j, get-set k j v m)

  pub get-remove :
      (k j : Str) (m : Map V) → get j (remove k m) ≡ (if str_eq k j then none else get j m)
  unfolding get remove
  get-remove k j [] = ground arith
  get-remove k j ((i, w) ∷ m) =
      ground (arith, str_eq_iff k j, str_eq_iff i k, str_eq_iff i j, get-remove k j m)

pub ruleset map_laws = (get-set, get-remove)
