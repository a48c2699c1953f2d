-- ===== src/Sort/Laws.antt =====
-- A sorted list is in order and has the elements of the list that it came from.
use mathlib.Core.List.{Perm}
use mathlib.Core.List.Perm
use mirk.Common.{◌≡◌, refl, ap, ◌∙◌, ◌≢◌, suc, length, List, [], ◌∷◌, Ordering, arith, All}
use mirk.Sort.{insert, sort}

module _ {ℓ} {A : Type ℓ} (cmp : A → A → Ordering) where
  -- No element stands after one that it precedes.
  abbrev pub IsSorted : List A → Type ℓ
  IsSorted [] = Unit
  IsSorted (x ∷ xs) = All (λ y. cmp x y ≢ Ordering.gt) xs × IsSorted xs

  insert-perm : (x : A) (xs : List A) → Perm (insert cmp x xs) (x ∷ xs)
  unfolding insert
  insert-perm x [] = Perm.refl (x ∷ [])
  insert-perm x (y ∷ ys) = pick (cmp x y) (insert-perm x ys)
    where
      pick :
          (o : Ordering)
          → Perm (insert cmp x ys) (x ∷ ys)
          → Perm (elim o [ Ordering.gt ↦ y ∷ insert cmp x ys | _ ↦ x ∷ y ∷ ys ]) (x ∷ y ∷ ys)
      pick Ordering.lt ih = Perm.refl (x ∷ y ∷ ys)
      pick Ordering.eq ih = Perm.refl (x ∷ y ∷ ys)
      pick Ordering.gt ih = Perm.trans (Perm.cons y ih) (Perm.swap x y ys)

  pub sort-perm : (xs : List A) → Perm (sort cmp xs) xs
  unfolding sort
  sort-perm [] = Perm.refl []
  sort-perm (x ∷ xs) = Perm.trans (insert-perm x (sort cmp xs)) (Perm.cons x (sort-perm xs))

  length-insert : (x : A) (xs : List A) → length (insert cmp x xs) ≡ suc (length xs)
  unfolding insert
  length-insert x [] = refl
  length-insert x (y ∷ ys) = ground (arith, length-insert x ys)

  pub length-sort : (xs : List A) → length (sort cmp xs) ≡ length xs
  unfolding sort
  length-sort [] = refl
  length-sort (x ∷ xs) = length-insert x (sort cmp xs) ∙ ap suc (length-sort xs)

  All-insert {κ} : (P : A → Type κ) (x : A) (xs : List A) → P x → All P xs → All P (insert cmp x xs)
  unfolding insert
  All-insert P x [] px h = (px, h)
  All-insert P x (y ∷ ys) px h = pick (cmp x y) (All-insert P x ys px h.1)
    where
      pick :
          (o : Ordering)
          → All P (insert cmp x ys)
          → All P (elim o [ Ordering.gt ↦ y ∷ insert cmp x ys | _ ↦ x ∷ y ∷ ys ])
      pick Ordering.lt ih = (px, h)
      pick Ordering.eq ih = (px, h)
      pick Ordering.gt ih = (h.0, ih)

  pub All-sort {κ} : (P : A → Type κ) (xs : List A) → All P xs → All P (sort cmp xs)
  unfolding sort
  All-sort P [] h = h
  All-sort P (x ∷ xs) h = All-insert P x (sort cmp xs) h.0 (All-sort P xs h.1)

  -- The sort depends on the comparator only at the elements.
  insert_congr {κ} :
      (P : A → Type κ) (cmp' : A → A → Ordering)
      → ((a b : A) → P a → P b → cmp a b ≡ cmp' a b)
      → (x : A) (xs : List A) → P x
      → All P xs
      → insert cmp x xs ≡ insert cmp' x xs
  unfolding insert
  insert_congr P cmp' same x [] px h = refl
  insert_congr P cmp' same x (y ∷ ys) px h =
      ground (arith, same x y px h.0, insert_congr P cmp' same x ys px h.1)

  pub sort_congr {κ} :
      (P : A → Type κ) (cmp' : A → A → Ordering)
      → ((a b : A) → P a → P b → cmp a b ≡ cmp' a b)
      → (xs : List A) → All P xs
      → sort cmp xs ≡ sort cmp' xs
  unfolding sort
  sort_congr P cmp' same [] h = refl
  sort_congr P cmp' same (x ∷ xs) h =
      insert_congr P cmp' same x (sort cmp xs) h.0 (All-sort P xs h.1)
      ∙ ap (insert cmp' x) (sort_congr P cmp' same xs h.1)

  module _ (total : (a b : A) → cmp a b ≡ Ordering.gt → cmp b a ≢ Ordering.gt)
      (transitive : (a b c : A)
        → cmp a b ≢ Ordering.gt
        → cmp b c ≢ Ordering.gt
        → cmp a c ≢ Ordering.gt) where
    below_trans :
        (x y : A) (ys : List A)
        → cmp x y ≢ Ordering.gt
        → All (λ z. cmp y z ≢ Ordering.gt) ys
        → All (λ z. cmp x z ≢ Ordering.gt) ys
    below_trans x y [] h ys = tt
    below_trans x y (z ∷ zs) h ys = (transitive x y z h ys.0, below_trans x y zs h ys.1)

    insert-IsSorted : (x : A) (xs : List A) → IsSorted xs → IsSorted (insert cmp x xs)
    unfolding insert
    insert-IsSorted x [] s = (tt, tt)
    insert-IsSorted x (y ∷ ys) s = pick (cmp x y) refl (insert-IsSorted x ys s.1)
      where
        pick :
            (o : Ordering)
            → cmp x y ≡ o
            → IsSorted (insert cmp x ys)
            → IsSorted (elim o [ Ordering.gt ↦ y ∷ insert cmp x ys | _ ↦ x ∷ y ∷ ys ])
        pick Ordering.lt e ih =
            let h : cmp x y ≢ Ordering.gt = cc e in ((h, below_trans x y ys h s.0), s)
        pick Ordering.eq e ih =
            let h : cmp x y ≢ Ordering.gt = cc e in ((h, below_trans x y ys h s.0), s)
        pick Ordering.gt e ih = (All-insert (λ z. cmp y z ≢ Ordering.gt) x ys (total x y e) s.0, ih)

    pub sort-IsSorted : (xs : List A) → IsSorted (sort cmp xs)
    unfolding sort
    sort-IsSorted [] = tt
    sort-IsSorted (x ∷ xs) = insert-IsSorted x (sort cmp xs) (sort-IsSorted xs)
