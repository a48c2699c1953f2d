-- ===== src/Text/Preorder.antt =====
-- The order of code points is a total preorder (packages/store/src/order.ts).
use mirk.Common.{ℕ, ◌≡◌, ◌≢◌, ap, List, [], ◌∷◌, arith, Ordering}
use mirk.Text.{Str, compare_list, code_points, compare_code_points}
use mirk.Text.Units.{str_eq_iff, compare_list-eq_iff, compare_list-flip}

-- The test for equal strings only saves work.
compare_code_points_lem :
    (a b : Str) → compare_code_points a b ≡ compare_list (code_points a) (code_points b)
unfolding compare_code_points
compare_code_points_lem a b =
    ground
      (arith, str_eq_iff a b, compare_list-eq_iff (code_points a) (code_points b), ap code_points)

compare_list_total :
    (a b : List ℕ) → compare_list a b ≡ Ordering.gt → compare_list b a ≢ Ordering.gt
compare_list_total a b h = ground (arith, compare_list-flip a b)

compare_list_below :
    (a b c : List ℕ)
    → compare_list a b ≢ Ordering.gt
    → compare_list b c ≢ Ordering.gt
    → compare_list a c ≢ Ordering.gt
unfolding compare_list
compare_list_below [] [] c p q = q
compare_list_below [] (y ∷ ys) [] p q = ground arith
compare_list_below [] (y ∷ ys) (z ∷ zs) p q = ground arith
compare_list_below (x ∷ xs) [] c p q = ground arith
compare_list_below (x ∷ xs) (y ∷ ys) [] p q = ground arith
compare_list_below (x ∷ xs) (y ∷ ys) (z ∷ zs) p q = ground (arith, compare_list_below xs ys zs)

pub compare_code_points_total :
    (a b : Str) → compare_code_points a b ≡ Ordering.gt → compare_code_points b a ≢ Ordering.gt
compare_code_points_total a b h =
    rw (compare_code_points_lem b a)
      (compare_list_total (code_points a) (code_points b) (rw (compare_code_points_lem a b) at h))

pub compare_code_points_below :
    (a b c : Str)
    → compare_code_points a b ≢ Ordering.gt
    → compare_code_points b c ≢ Ordering.gt
    → compare_code_points a c ≢ Ordering.gt
compare_code_points_below a b c p q = rw (compare_code_points_lem a c) (
    compare_list_below (code_points a) (code_points b) (code_points c)
      (rw (compare_code_points_lem a b) at p) (rw (compare_code_points_lem b c) at q))
