-- ===== src/Atomic/Target.antt =====
-- `StoreTarget`, `compareTargets` and `targetKey` of packages/store/src/atomic.ts.
pub mod Keys
use mirk.Common.{Bool, true, false, not, ◌&&◌, [], ◌∷◌, ◌++◌, Ordering, length}
use mirk.Text.{Str, str_eq, is_empty, compare_code_points}
use mirk.Decimal.{decimal}

pub data Target : Type 0 where
  key : Str → Target
  record_of : Str → Str → Target

-- `a || b` on the signs of two comparisons
abbrev pub or_else : Ordering → Ordering → Ordering
or_else Ordering.eq b = b
or_else a b = a

unfoldable pub compare_targets : Target → Target → Ordering
compare_targets (key a) (key b) = compare_code_points a b
compare_targets (key a) (record_of c j) = Ordering.lt
compare_targets (record_of c i) (key b) = Ordering.gt
compare_targets (record_of c i) (record_of d j) =
    or_else (compare_code_points c d) (compare_code_points i j)

-- `${value.length}:${value}`
unfoldable pub part : Str → Str
part value = decimal (length value) ++ b':' ∷ value

unfoldable pub target_key : Target → Str
unfolding part
target_key (key k) = b'k' ∷ b':' ∷ part k
target_key (record_of collection id) = b'r' ∷ b':' ∷ (part collection ++ b':' ∷ part id)

-- A record's collection has a name.
unfoldable pub is_named : Target → Bool
is_named (key k) = true
is_named (record_of c i) = not (is_empty c)

unfoldable pub same_target : Target → Target → Bool
same_target (key a) (key b) = str_eq a b
same_target (key a) (record_of d j) = false
same_target (record_of c i) (key b) = false
same_target (record_of c i) (record_of d j) = str_eq c d && str_eq i j
