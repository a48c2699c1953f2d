-- ===== src/Atomic/Normal.antt =====
-- What the validation of an atomic request guarantees (packages/store/src/atomic.ts).
use mirk.Common.{
  subst, ℕ, ◌≤◌, ◌<◌, ◌≡◌, refl, sym, ap, ◌∙◌, true, false, List, [], ◌∷◌, arith, All, length,
}
use mirk.Common.Result.{Result, ok, >>=-eq-ok}
use mirk.Text.{Str, ascii}
use mirk.Text.Units.{str_eq_iff, str_eq_refl}
use mirk.Sort.{sort}
use mirk.Sort.Laws.{All-sort}
use mirk.Js.{Number, Js, undefined, arr, obj, Items, nil, cons, hole, at, is_undefined}
use mirk.Atomic.Limits.{Limits}
use mirk.Atomic.Normalize.{
  target_from, normalize_condition, normalize_operation, normalize_all, count_slots, has_repeat,
  seen_before, by_target,
}
use mirk.Atomic.Shape.{Rejection, Condition, Operation, Validated, operation_target}
use mirk.Atomic.Target.{Target, target_key, is_named, same_target}
use mirk.Atomic.Target.Keys.{target_key_eq}
use mirk.Atomic.Validate.{
  read_conditions, read_operations, check_operation_limit, check_condition_limit,
  validate_atomic_request, operation_keys,
}

module _ {N : Type 0} where
  target_from-is_named : (value : Js N) (t : Target) → target_from value ≡ ok t → is_named t ≡ true
  unfolding target_from is_named
  target_from-is_named value t h = ground arith

  normalize_condition-is_named :
      (value : Js N) (c : Condition) → normalize_condition value ≡ ok c → is_named c.target ≡ true
  unfolding normalize_condition
  normalize_condition-is_named (obj fs) c h =
      ground (arith, target_from-is_named (at (ascii "target") fs) c.target)
  normalize_condition-is_named _ c h = ground arith

  -- What each slot's value satisfies, all of the list satisfy, and none is lost.
  normalize_all-All :
      {A : Type 0} (P : A → Type 0) (f : Js N → Result Rejection A)
      → ((v : Js N) (a : A) → f v ≡ ok a → P a)
      → (xs : Items N) (as' : List A) → normalize_all f xs ≡ ok as'
      → All P as' × (length as' ≡ count_slots xs)
  unfolding normalize_all count_slots
  normalize_all-All P f each nil [] h = (tt, refl)
  normalize_all-All P f each nil (a ∷ as') h = cc
  normalize_all-All P f each (hole xs) as' h = cc
  normalize_all-All P f each (cons v xs) [] h =
      let (a, p, q) = >>=-eq-ok (f v) _ h in
      let (rest, r, e) = >>=-eq-ok (normalize_all f xs) _ q in cc e
  normalize_all-All {A} P f each (cons v xs) (b ∷ bs) h =
      let (a, p, q) = >>=-eq-ok (f v) _ h in
      let (rest, r, e) = >>=-eq-ok (normalize_all f xs) _ q in
      let same_head : a ≡ b = cc e in
      let same_rest : ◌≡◌ {A = List A} rest bs = cc e in
      let (all, size) = normalize_all-All P f each xs bs (r ∙ ap ok same_rest) in
      ((each v b (p ∙ ap ok same_head), all), omega arith)

  -- No two operations write one target.
  abbrev pub Distinct : List (Operation N) → Type 0
  Distinct [] = Unit
  Distinct (o ∷ os) =
      All (λ p. same_target (operation_target o) (operation_target p) ≡ false) os × Distinct os

  -- A target that was seen is none of those that follow.
  missed :
      (t : Target) (seen : List Str) (os : List (Operation N))
      → seen_before (target_key t) seen ≡ true
      → has_repeat seen (operation_keys os) ≡ false
      → All (λ o. same_target t (operation_target o) ≡ false) os
  unfolding has_repeat
  missed t seen [] k h = tt
  missed t seen (o ∷ os) k h =
      let j = target_key (operation_target o) in
      (
        ground (arith, str_eq_iff (target_key t) j, target_key_eq t (operation_target o)),
        missed t (j ∷ seen) os (unfold seen_before in ground arith) (ground arith),
      )

  has_repeat-Distinct :
      (seen : List Str) (os : List (Operation N))
      → has_repeat seen (operation_keys os) ≡ false
      → Distinct os
  unfolding has_repeat
  has_repeat-Distinct seen [] h = tt
  has_repeat-Distinct seen (o ∷ os) h =
      let k = target_key (operation_target o) in
      (
        missed (operation_target o) (k ∷ seen) os
            (unfold seen_before in ground (arith, str_eq_refl k)) (ground arith),
        has_repeat-Distinct (k ∷ seen) os (ground arith),
      )

-- The conditions of a normal request name collections; so do the operations, and no two write one
-- target; and there are as many as the store's bounds allow.
pub record IsNormal {N : Type 0} (limits : Limits) (v : Validated N) : Type 0 where
  pub conditions_named : All (λ c. is_named c.target ≡ true) v.conditions
  pub operations_named : All (λ o. is_named (operation_target o) ≡ true) v.operations
  pub distinct : Distinct v.operations
  pub some_operation : 0 < length v.operations
  pub few_operations : length v.operations ≤ limits.max_operations

abbrev slots_of : {N : Type 0} → Js N → ℕ
slots_of (arr xs) = count_slots xs
slots_of _ = 0

module _ {N : Type 0} ⦃number : Number N⦄ where
  normalize_operation-is_named :
      (value : Js N) (o : Operation N)
      → normalize_operation value ≡ ok o
      → is_named (operation_target o) ≡ true
  unfolding normalize_operation operation_target is_named
  normalize_operation-is_named (obj fs) o h = ground arith
  normalize_operation-is_named _ o h = ground arith

  read_conditions-named :
      (value : Js N) (cs : List Condition)
      → read_conditions value ≡ ok cs
      → All (λ c. is_named c.target ≡ true) cs
  unfolding read_conditions is_undefined
  read_conditions-named undefined [] h = tt
  read_conditions-named undefined (c ∷ cs) h = cc
  read_conditions-named (arr xs) cs h =
      let (conditions, r, q) = >>=-eq-ok (normalize_all normalize_condition xs) _ h in
      let named =
        normalize_all-All (λ c. is_named c.target ≡ true) normalize_condition
          normalize_condition-is_named xs conditions r in
      let sorted : sort by_target conditions ≡ cs = ground arith in
      subst (All (λ c. is_named c.target ≡ true)) sorted
        (All-sort by_target (λ c. is_named c.target ≡ true) conditions named.0)
  read_conditions-named _ cs h = cc

  read_operations-normal :
      (value : Js N) (os : List (Operation N))
      → read_operations value ≡ ok os
      → All (λ o. is_named (operation_target o) ≡ true) os
        × Distinct os
        × (length os ≡ slots_of value)
  unfolding read_operations
  read_operations-normal (arr xs) os h =
      let (operations, r, q) = >>=-eq-ok (normalize_all normalize_operation xs) _ h in
      let kept : operations ≡ os = ground arith in
      let once : has_repeat [] (operation_keys operations) ≡ false = ground arith in
      let named =
        normalize_all-All (λ o. is_named (operation_target o) ≡ true) normalize_operation
          normalize_operation-is_named xs operations r in
      (
        subst (All (λ o. is_named (operation_target o) ≡ true)) kept named.0,
        subst Distinct kept (has_repeat-Distinct [] operations once),
        ap length (sym kept) ∙ named.1,
      )
  read_operations-normal _ os h = cc

  check_operation_limit-slots :
      (value : Js N) (limits : Limits)
      → check_operation_limit value limits ≡ ok tt
      → (0 < slots_of value) × (slots_of value ≤ limits.max_operations)
  unfolding check_operation_limit
  check_operation_limit-slots (arr xs) limits h = ground arith
  check_operation_limit-slots _ limits h = ground arith

  -- A request that validateAtomicRequest accepts has named targets only, at most one operation
  -- per target, at least one operation and no more than the limit.
  pub validate_atomic_request-IsNormal :
      (request : Js N) (limits : Limits) (v : Validated N)
      → validate_atomic_request request limits ≡ ok v
      → IsNormal limits v
  unfolding validate_atomic_request
  validate_atomic_request-IsNormal (obj fs) limits v h =
      let (u, a, h1) = >>=-eq-ok (check_operation_limit (at (ascii "operations") fs) limits) _ h in
      let (u', a', h2) =
        >>=-eq-ok (check_condition_limit (at (ascii "conditions") fs) limits) _ h1 in
      let (cs, b, h3) = >>=-eq-ok (read_conditions (at (ascii "conditions") fs)) _ h2 in
      let (os, c, h4) = >>=-eq-ok (read_operations (at (ascii "operations") fs)) _ h3 in
      let normal = read_operations-normal (at (ascii "operations") fs) os c in
      let slots = check_operation_limit-slots (at (ascii "operations") fs) limits a in
      let same_conditions : cs ≡ v.conditions = ground arith in
      let same_operations : os ≡ v.operations = ground arith in
      record {
        conditions_named =
            subst (All (λ c. is_named c.target ≡ true)) same_conditions
              (read_conditions-named (at (ascii "conditions") fs) cs b);
        operations_named =
            subst (All (λ o. is_named (operation_target o) ≡ true)) same_operations normal.0;
        distinct = subst Distinct same_operations normal.1;
        some_operation = rw (← same_operations) (omega arith);
        few_operations = rw (← same_operations) (omega arith);
      }
  validate_atomic_request-IsNormal _ limits v h = cc
