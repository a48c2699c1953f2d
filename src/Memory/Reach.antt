-- ===== src/Memory/Reach.antt =====
-- The states of an `InMemoryStore` that its methods can reach
-- (packages/store/src/backends/memory.ts).
use mirk.Common.Result.{Result-cases}
use mirk.Common.{ℕ, ◌≡◌, refl, inl, inr, true, false, Option, none, some, Option-cases, List}
use mirk.Text.{Str, is_empty}
use mirk.Map
use mirk.Map.{Map}
use mirk.Js.{Number, Js, Fields}
use mirk.Atomic.Limits.{Limits}
use mirk.Atomic.Normal.{IsNormal, validate_atomic_request-IsNormal}
use mirk.Atomic.Shape.{Validated, Idempotency}
use mirk.Atomic.Target.{Target, key, record_of, is_named}
use mirk.Atomic.Validate.{validate_atomic_request}
use mirk.Memory.State.{Store, new_store, Completed}
use mirk.Filter.{StoreFilter, Coercion}
use mirk.Memory.Values.{set, delete, put, remove, get_by_id}
use mirk.Memory.Queries.{ensure_index, count, list, list_where_in}
use mirk.Memory.Collections.{ensured}
use mirk.Memory.Looks.{
  get_by_id-state, ensure_index-state, count-state, list-state, list_where_in-state,
}
use mirk.Memory.Receipts.{
  read_receipt, write_receipt, prune_receipt_batch, prune_expired_receipts, prune_all, when_kept,
}
use mirk.Memory.Mutate.{get_versioned, decide, run_with, mutate_atomically, record_receipt}
use mirk.Memory.View.{read, version_at}
use mirk.Memory.Update.{IsTracked, is_some, Update-IsTracked}
use mirk.Memory.Operations.{set-Update, delete-Update, put-Update, remove-Update}
use mirk.Memory.Batch.{after_all, after_all-IsTracked}
use mirk.Memory.Conditions.{
  SameView-IsTracked, SameView-ensured, SameView-prepared, seen, first_failure,
  check_conditions_lem, get_versioned_lem,
}
use mirk.Memory.Outcome.{commit_lem}
use mirk.Memory.Atomicity.{IsTracked-receipts, IsTracked-prune, mutate_ok, mutate_err}

module _ {N : Type 0} where
  -- A new store holds nothing, so it is tracked.
  pub new_store-IsTracked :
      (limits : Limits) (retention : Option ℕ) (identity : Str)
      → IsTracked (new_store {N = N} limits retention identity)
  unfolding version_at new_store Map.get read
  new_store-IsTracked limits retention identity = record {
    tracked = both_none;
    fresh = λ t n h e. cc e;
    distinct = λ t u v p q. cc p;
  }
    where
      both_none :
          (t : Target)
          → is_some (version_at t (new_store {N = N} limits retention identity))
            ≡ is_some (read t (new_store {N = N} limits retention identity))
      both_none (key k) = refl
      both_none (record_of c i) = refl

  record_receipt-IsTracked :
      (i : Option (Idempotency N)) (now : ℕ) (c : Completed N) (s : Store N)
      → IsTracked s
      → IsTracked (record_receipt i now c s)
  unfolding write_receipt
  record_receipt-IsTracked none now c s inv = inv
  record_receipt-IsTracked (some i) now c s inv = IsTracked-receipts s _ inv

  decide-IsTracked :
      {limits : Limits} (v : Validated N) (now : ℕ) (s : Store N)
      → IsNormal limits v
      → IsTracked s
      → IsTracked (decide v now s).1
  unfolding decide
  decide-IsTracked v now s n inv =
      let (s', e, w) = check_conditions_lem v.conditions s n.conditions_named inv in
      let inv' = SameView-IsTracked w inv in
      elim (Option-cases (first_failure v.conditions (seen s))) [
        | inl f ↦
            rw (e, decide)
              (rw (f, commit_lem v now s' n inv')
                (record_receipt-IsTracked v.idempotency now _ (after_all v.operations s')
                  (after_all-IsTracked v.operations s' n.operations_named inv')))
        | inr (r, f) ↦ rw (e, decide) (rw f inv')
      ]

  run_with-IsTracked :
      {limits : Limits} (o : Option (Idempotency N)) (v : Validated N) (now : ℕ) (s : Store N)
      → IsNormal limits v
      → IsTracked s
      → IsTracked (run_with o v now s).1
  unfolding run_with
  run_with-IsTracked none v now s n inv = decide-IsTracked v now s n inv
  run_with-IsTracked (some i) v now s n inv =
      let p = prune_receipt_batch now s in
      elim (Option-cases (read_receipt i.key now p)) [
        | inl f ↦ rw (f, run_with) (decide-IsTracked v now p n (IsTracked-prune now s inv))
        | inr (r, f) ↦ rw (f, run_with) (IsTracked-prune now s inv)
      ]

  prune_expired-IsTracked :
      (now : ℕ) (s : Store N) → IsTracked s → IsTracked (prune_expired_receipts now s).0
  unfolding prune_expired_receipts
  prune_expired-IsTracked now s inv = kept s.receipt_retention_ms
    where
      kept :
          (o : Option ℕ)
          → IsTracked
              (when_kept {A = Store N × ℕ} o
                (s, 0)
                (
                  record s { receipts = (prune_all now s.receipt_retention_ms s.receipts).0 },
                  (prune_all now s.receipt_retention_ms s.receipts).1,
                )).0
      kept none = inv
      kept (some r) = IsTracked-receipts s _ inv

module _ {N : Type 0} ⦃number : Number N⦄ where
  pub mutate_atomically-IsTracked :
      (request : Js N) (now : ℕ) (s : Store N)
      → IsTracked s
      → IsTracked (mutate_atomically request now s).1
  mutate_atomically-IsTracked request now s inv =
      elim (Result-cases (validate_atomic_request request s.atomic_limits)) [
        | inl (v, e) ↦ rw (mutate_ok request v now s e) (
            run_with-IsTracked v.idempotency v now s
              (validate_atomic_request-IsNormal request s.atomic_limits v e) inv)
        | inr (k, e) ↦ rw (mutate_err request k now s e) inv
      ]

module _ {N : Type 0} ⦃number : Number N⦄ ⦃coercion : Coercion N⦄ where
  -- One call of a method that may change the store. A collection without a name changes nothing.
  pub data Step (s : Store N) : Store N → Type 0 where
    set_step : (k : Str) (v : Js N) → Step s (set k v s)
    delete_step : (k : Str) → Step s (delete k s).1
    put_step : (c : Str) (item : Fields N) → is_empty c ≡ false → Step s (put c item s).1
    remove_step : (c i : Str) → is_empty c ≡ false → Step s (remove c i s).1
    read_step : (t : Target) → is_named t ≡ true → Step s (get_versioned t s).1
    mutate_step : (request : Js N) (now : ℕ) → Step s (mutate_atomically request now s).1
    prune_step : (now : ℕ) → Step s (prune_expired_receipts now s).0
    get_by_id_step : (c i : Str) → is_empty c ≡ false → Step s (get_by_id c i s).1
    ensure_index_step : (c k : Str) → is_empty c ≡ false → Step s (ensure_index c k s).1
    count_step :
        (c : Str) (f : Option (StoreFilter N)) → is_empty c ≡ false → Step s (count c f s).1
    list_step : (c : Str) (f : Option (StoreFilter N)) → is_empty c ≡ false → Step s (list c f s).1
    list_where_in_step :
        (c k : Str) (vs : List (Js N)) (f : Option (StoreFilter N))
        → is_empty c ≡ false
        → Step s (list_where_in c k vs f s).1

  pub data Reach : Store N → Type 0 where
    start :
        (limits : Limits) (retention : Option ℕ) (identity : Str)
        → Reach (new_store limits retention identity)
    next : {s s' : Store N} → Reach s → Step s s' → Reach s'

  ensured-IsTracked : (c : Str) (s : Store N) → IsTracked s → IsTracked (ensured c s)
  ensured-IsTracked c s inv = SameView-IsTracked (SameView-ensured c s) inv

  Step-IsTracked : {s s' : Store N} → Step s s' → IsTracked s → IsTracked s'
  Step-IsTracked {s} (set_step k v) inv = Update-IsTracked (set-Update k v s) inv
  Step-IsTracked {s} (delete_step k) inv = Update-IsTracked (delete-Update k s inv) inv
  Step-IsTracked {s} (put_step c item h) inv = Update-IsTracked (put-Update c item s h) inv
  Step-IsTracked {s} (remove_step c i h) inv = Update-IsTracked (remove-Update c i s h inv) inv
  Step-IsTracked {s} (read_step t h) inv =
      rw (get_versioned_lem t s h inv) (SameView-IsTracked (SameView-prepared t s) inv)
  Step-IsTracked {s} (mutate_step request now) inv = mutate_atomically-IsTracked request now s inv
  Step-IsTracked {s} (prune_step now) inv = prune_expired-IsTracked now s inv
  Step-IsTracked {s} (get_by_id_step c i h) inv =
      rw (get_by_id-state c i s h) (ensured-IsTracked c s inv)
  Step-IsTracked {s} (ensure_index_step c k h) inv =
      rw (ensure_index-state c k s h) (ensured-IsTracked c s inv)
  Step-IsTracked {s} (count_step c f h) inv = rw (count-state c f s h) (ensured-IsTracked c s inv)
  Step-IsTracked {s} (list_step c f h) inv = rw (list-state c f s h) (ensured-IsTracked c s inv)
  Step-IsTracked {s} (list_where_in_step c k vs f h) inv = elim (list_where_in-state c k vs f s h) [
    | inl e ↦ rw e inv
    | inr e ↦ rw e (ensured-IsTracked c s inv)
  ]

  -- In every state that calls of set, delete, put, remove, getById, list, listWhereIn, count,
  -- ensureIndex, getVersioned, mutateAtomically and pruneExpiredReceipts, with collections that
  -- have a name, reach from a new store, a target has a version exactly while it has a value, no
  -- version equals a token that is still to be minted, and no two targets share a version.
  pub Reach-IsTracked : {s : Store N} → Reach s → IsTracked s
  Reach-IsTracked (start limits retention identity) = new_store-IsTracked limits retention identity
  Reach-IsTracked (next r st) = Step-IsTracked st (Reach-IsTracked r)
