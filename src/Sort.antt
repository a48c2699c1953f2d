-- ===== src/Sort.antt =====
-- `Array.prototype.sort` by a comparator: the stable sort of the language. The laws hold of a
-- comparator that is a total preorder.
pub mod Laws
use mirk.Common.{List, [], ◌∷◌, Ordering}

module _ {ℓ} {A : Type ℓ} (cmp : A → A → Ordering) where
  -- `x` stood before the elements of the list, so it stays before those it equals.
  unfoldable pub insert : A → List A → List A
  insert x [] = x ∷ []
  insert x (y ∷ ys) =
      let rest = insert x ys in elim (cmp x y) [ Ordering.gt ↦ y ∷ rest | _ ↦ x ∷ y ∷ ys ]

  unfoldable pub sort : List A → List A
  unfolding insert
  sort [] = []
  sort (x ∷ xs) = insert x (sort xs)
