-- ===== src/Namespace/Isolation.antt =====
-- Handles of two namespaces over one `InMemoryStore` do not touch each other's targets
-- (packages/store/src/namespace.ts).
use mirk.Common.{
  ℕ, ◌≡◌, ◌≢◌, refl, sym, ap, ◌∙◌, false, Option, List, [], ◌∷◌, map, arith, if◌then◌else◌, inl,
  inr, subst,
}
use mirk.Common.Result.{Result, ok, err, >>=-eq-ok, Result-cases}
use mirk.Text.{Str, str_eq}
use mirk.Js.{at, property, or_undefined, Number, Js, arr}
use mirk.Canonical.{clone_object}
use mirk.Atomic.Encode.{condition_js, operation_js, array_js}
use mirk.Atomic.Limits.{Limits}
use mirk.Atomic.Normalize.{normalize_all, normalize_operation, json_safe}
use mirk.Atomic.Shape.{Validated, Operation, operation_target, item_id, Idempotency, Condition}
use mirk.Atomic.Target.{Target, key, record_of, same_target}
use mirk.Atomic.Target.Keys.{same_target_iff}
use mirk.Atomic.Validate.{
  validate_atomic_request, read_conditions, read_operations, check_condition_limit,
  check_operation_limit,
}
use mirk.Memory.State.{Store, StoreError, rejected, invalid_collection_name, invalid_filter}
use mirk.Memory.Mutate.{
  MutationResult, applied, replayed, conflict, idempotency_conflict, mutate_atomically,
}
use mirk.Memory.View.{read, version_at}
use mirk.Memory.Update.{IsTracked, Update}
use mirk.Memory.Apply.{effects}
use mirk.Memory.Batch.{Misses}
use mirk.Memory.Atomicity.{Answered, mutate_atomically-Answered}
use mirk.Memory.Reach.{mutate_atomically-IsTracked}
use mirk.Namespace.Binding.{
  separator, has_unit, bind_target, bind_operation, bind_conditions, bind_request, bound_request,
}
use mirk.Namespace.Names.{bind_target-apart}
use mirk.Namespace.Store.{in_memory_atomic, namespaced_mutate, then_pure}

module _ {N : Type 0} where
  -- The target has the value and the version that it had.
  pub record Kept (t : Target) (s s' : Store N) : Type 0 where
    pub value : read t s' ≡ read t s
    pub version : version_at t s' ≡ version_at t s

  pub Kept-refl : (t : Target) (s : Store N) → Kept t s s
  Kept-refl t s = record { value = refl; version = refl }

  pub Kept-trans : {t : Target} {s s' s'' : Store N} → Kept t s s' → Kept t s' s'' → Kept t s s''
  Kept-trans a b = record { value = b.value ∙ a.value; version = b.version ∙ a.version }

  pub Update-Kept :
      {t : Target} {v : Option (Js N)} {s s' : Store N} (u : Target)
      → Update t v s s'
      → same_target t u ≡ false
      → Kept u s s'
  Update-Kept u up h = record {
    value = ground (arith, up.reads u);
    version = ground (arith, up.versions u);
  }

  effects-Misses :
      (os : List (Operation N)) (view : Target → Option (Js N)) (t : Target)
      → Misses t os
      → effects os view t ≡ view t
  unfolding effects
  effects-Misses [] view t m = refl
  effects-Misses (o ∷ os) view t m =
      effects-Misses os (λ u. if same_target (operation_target o) u then _ else view u) t m.1
      ∙ ground (
        arith,
        m.0,
        same_target_iff (operation_target o) t,
        same_target_iff t (operation_target o),
      )

module _ {N : Type 0} ⦃number : Number N⦄ where
  Answered-Kept :
      (request : Js N) (s : Store N) (t : Target)
      (x : Result StoreError (MutationResult N) × Store N)
      → Answered request s x
      → ((v : Validated N)
          → validate_atomic_request request s.atomic_limits ≡ ok v
          → Misses t v.operations)
      → Kept t s x.1
  Answered-Kept request s t (err (rejected e), s') a m = rw a.1 (Kept-refl t s)
  Answered-Kept request s t (err invalid_collection_name, s') a m = absurd a
  Answered-Kept request s t (err (invalid_filter f), s') a m = absurd a
  Answered-Kept request s t (ok (conflict c o), s') (v, e, d) m = record {
    value = d.1.values t;
    version = d.1.tokens t;
  }
  Answered-Kept request s t (ok (replayed c), s') (v, e, d) m = record {
    value = d.values t;
    version = d.tokens t;
  }
  Answered-Kept request s t (ok (idempotency_conflict k i r), s') (v, e, d) m = record {
    value = d.values t;
    version = d.tokens t;
  }
  Answered-Kept request s t (ok (applied c), s') (v, e, d) m = record {
    value = d.1.effects_hold t ∙ effects-Misses v.operations (λ u. read u s) t (m v e);
    version = d.1.others t (m v e);
  }

  -- The validation of a bound operation leaves it in its namespace.
  bind_operation-target :
      (a : Str) (o o' : Operation N)
      → normalize_operation (operation_js (bind_operation a o)) ≡ ok o'
      → (u : Target) × (operation_target o' ≡ bind_target a u)
  unfolding normalize_operation operation_js bind_operation operation_target bind_target at property
      or_undefined str_eq
  bind_operation-target a (Operation.set k v) o' h =
      let (u, p, q) = >>=-eq-ok (json_safe v) _ h in (key k, ground arith)
  bind_operation-target a (Operation.delete_key k) o' h = (key k, ground arith)
  bind_operation-target a (Operation.put c item) o' h =
      (record_of c (item_id (clone_object item)), ground arith)
  bind_operation-target a (Operation.remove c i) o' h = (record_of c i, ground arith)

  bind_operation-Misses :
      (a b : Str) (t : Target) (os os' : List (Operation N))
      → has_unit separator a ≡ false
      → has_unit separator b ≡ false
      → a ≢ b
      → normalize_all normalize_operation (array_js operation_js (map (bind_operation a) os))
        ≡ ok os'
      → Misses (bind_target b t) os'
  unfolding normalize_all array_js
  bind_operation-Misses a b t [] [] p q ne h = tt
  bind_operation-Misses a b t [] (o ∷ os') p q ne h = cc
  bind_operation-Misses a b t (o ∷ os) os' p q ne h =
      let (o', h1, r1) = >>=-eq-ok (normalize_operation (operation_js (bind_operation a o))) _ h in
      let (rest, h2, r2) =
        >>=-eq-ok
          (normalize_all normalize_operation (array_js operation_js (map (bind_operation a) os))) _
          r1 in
      let (u, e) = bind_operation-target a o o' h1 in
      let other : same_target (bind_target b t) (operation_target o') ≡ false =
        ap (same_target (bind_target b t)) e ∙ bind_target-apart b a t u q p (λ x. ne (sym x)) in
      let all : Misses (bind_target b t) (o' ∷ rest) =
        (other, bind_operation-Misses a b t os rest p q ne h2) in
      let same : o' ∷ rest ≡ os' = ground arith in subst (Misses (bind_target b t)) same all

  -- The operations of a bound request that is accepted miss the targets of another namespace.
  bound_request-Misses :
      (a b : Str) (t : Target) (cs : List Condition) (os : List (Operation N))
      (i : Option (Idempotency N)) (limits : Limits) (v : Validated N)
      → has_unit separator a ≡ false
      → has_unit separator b ≡ false
      → a ≢ b
      → validate_atomic_request (bound_request a cs os i) limits ≡ ok v
      → Misses (bind_target b t) v.operations
  unfolding validate_atomic_request bound_request at property or_undefined str_eq read_operations
  bound_request-Misses a b t cs os i limits v p q ne h =
      let operations : Js N = arr (array_js operation_js (map (bind_operation a) os)) in
      let conditions : Js N = arr (array_js condition_js cs) in
      let (u, h1, r1) = >>=-eq-ok (check_operation_limit operations limits) _ h in
      let (w, h2, r2) = >>=-eq-ok (check_condition_limit conditions limits) _ r1 in
      let (read_cs, h3, r3) = >>=-eq-ok (read_conditions conditions) _ r2 in
      let (read_os, h4, r4) = >>=-eq-ok (read_operations operations) _ r3 in
      let (all_os, h5, r5) =
        >>=-eq-ok
          (normalize_all normalize_operation (array_js operation_js (map (bind_operation a) os))) _
          h4 in
      let same : all_os ≡ read_os = ground arith in
      let same' : read_os ≡ v.operations = ground arith in
      subst (Misses (bind_target b t)) (same ∙ same')
        (bind_operation-Misses a b t os all_os p q ne h5)

  pub then_pure-state :
      {A B : Type 0} (f : A → B) (x : Result StoreError A × Store N) → (then_pure f x).1 ≡ x.1
  unfolding then_pure
  then_pure-state f (ok a, s) = refl
  then_pure-state f (err e, s) = refl

  -- The same of the call through the handle, whatever it answers.
  pub mutate-Kept :
      (a b : Str) (t : Target) (request : Js N) (now : ℕ) (s : Store N)
      → has_unit separator a ≡ false
      → has_unit separator b ≡ false
      → a ≢ b
      → IsTracked s
      → IsTracked (namespaced_mutate a in_memory_atomic request now s).1
        × Kept (bind_target b t) s (namespaced_mutate a in_memory_atomic request now s).1
  unfolding namespaced_mutate bind_request
  mutate-Kept a b t request now s p q ne inv =
      elim (Result-cases (bind_request a request s.atomic_limits)) [
        | inr (e, f) ↦ rw (f, namespaced_mutate) (inv, Kept-refl (bind_target b t) s)
        | inl (bound, f) ↦
            let (v, h1, r1) = >>=-eq-ok (validate_atomic_request request s.atomic_limits) _ f in
            let (cs, h2, r2) = >>=-eq-ok (bind_conditions a v.conditions) _ r1 in
            let same : bound_request a cs v.operations v.idempotency ≡ bound = ground arith in
            rw (f, namespaced_mutate, then_pure-state)
              (
                mutate_atomically-IsTracked bound now s inv,
                Answered-Kept bound s (bind_target b t) (mutate_atomically bound now s)
                    (mutate_atomically-Answered bound now s inv)
                    (λ w g.
                      bound_request-Misses a b t cs v.operations v.idempotency s.atomic_limits w p q
                        ne (ap (λ r. validate_atomic_request r s.atomic_limits) same ∙ g)),
              )
      ]
