-- ===== src/Memory/Mutate.antt =====
-- `getVersioned` and `mutateAtomically` of `InMemoryStore` (packages/store/src/backends/memory.ts).
use mirk.Common.{ℕ, Bool, true, false, not, Option, none, some, List, [], ◌∷◌, if◌then◌else◌}
use mirk.Common.Result.{ok, err}
use mirk.Text.{Str, str_eq}
use mirk.Map
use mirk.Map.{Map}
use mirk.Js.{Number, Js}
use mirk.Canonical.{clone_json, clone_object}
use mirk.Atomic.Shape.{
  Condition, Expected, missing, present, version, Operation, operation_target, Idempotency,
  Validated,
}
use mirk.Atomic.Target.{Target, key, record_of, target_key}
use mirk.Atomic.Validate.{validate_atomic_request}
use mirk.Memory.State.{
  Store, Act, rejected, Completed, Receipt, pure, continue, ◌>>=◌, ◌>>◌, stamp, version_token,
}
use mirk.Memory.Receipts.{read_receipt, write_receipt, prune_receipt_batch}
use mirk.Memory.Values.{set, delete, put, remove, ensure_collection}

pub record Versioned (N : Type 0) : Type 0 where
  pub value : Js N
  pub version : Str

pub data MutationResult (N : Type 0) : Type 0 where
  applied replayed : Completed N → MutationResult N
  conflict : Condition → Expected → MutationResult N
  idempotency_conflict : Str → Str → Str → MutationResult N

module _ {N : Type 0} where
  -- The answer of the map that a target is kept in.
  unfoldable pub lookup_target : Target → Act N (Option (Js N))
  unfolding continue
  lookup_target (key k) s = (ok (Map.get k s.kv), s)
  lookup_target (record_of collection id) s =
      (do col ← ensure_collection collection; pure (Map.get id col)) s

  -- The token of a value that is there; one that was never versioned gets its token now.
  unfoldable pub versioned : Target → Js N → Act N (Option (Versioned N))
  versioned t value s = elim (Map.get (target_key t) s.versions) [
    | none ↦
        let created = version_token s.version_prefix s.next_version_number in
        (ok (some (record { value = value; version = created })), stamp t s)
    | some token ↦ (ok (some (record { value = value; version = token })), s)
  ]

  -- `observe` and `getVersioned`, which are one code.
  unfoldable pub get_versioned : Target → Act N (Option (Versioned N))
  unfolding continue
  get_versioned t = do
    found ← lookup_target t
    elim found [ none ↦ pure none | some value ↦ versioned t value ]

  unfoldable pub condition_matches : Expected → Option (Versioned N) → Bool
  condition_matches missing none = true
  condition_matches missing (some v) = false
  condition_matches present none = false
  condition_matches present (some v) = true
  condition_matches (version token) none = false
  condition_matches (version token) (some v) = str_eq v.version token

  -- What a conflict reports of the observed value.
  unfoldable pub observed_as : Expected → Option (Versioned N) → Expected
  observed_as expected none = missing
  observed_as (version token) (some v) = version v.version
  observed_as missing (some v) = present
  observed_as present (some v) = present

  -- The loop over the conditions: the first that fails, if one does.
  unfoldable pub check_conditions : List Condition → Act N (Option (MutationResult N))
  unfolding continue
  check_conditions [] = pure none
  check_conditions (c ∷ cs) = do
    observed ← get_versioned c.target
    if condition_matches c.expected observed
        then check_conditions cs
        else pure (some (conflict c (observed_as c.expected observed)))

  -- One turn of the loop over the operations, with the entry that it pushes.
  unfoldable pub apply_operation : Operation N → Act N (Target × Option Str)
  unfolding continue
  apply_operation (Operation.set k v) = λ s.
      let s' = set k (clone_json v) s in (ok (key k, Map.get (target_key (key k)) s'.versions), s')
  apply_operation (Operation.delete_key k) = λ s. (ok (key k, none), (delete k s).1)
  apply_operation (Operation.put collection item) = do
    put collection (clone_object item)
    λ s.
        let t = operation_target (Operation.put collection item) in
        (ok (t, Map.get (target_key t) s.versions), s)
  apply_operation (Operation.remove collection id) = do
    remove collection id
    pure (record_of collection id, none)

  unfoldable pub apply_operations : List (Operation N) → Act N (List (Target × Option Str))
  unfolding continue
  apply_operations [] = pure []
  apply_operations (o ∷ os) = do
    entry ← apply_operation o
    rest ← apply_operations os
    pure (entry ∷ rest)

  abbrev pub clone_outcome : Option (Js N) → Option (Js N)
  clone_outcome none = none
  clone_outcome (some v) = some (clone_json v)

  -- The copy of a completed result that a receipt keeps and a replay returns.
  abbrev pub copy_completed : Completed N → Completed N
  copy_completed c = record c { outcome = clone_outcome c.outcome }

  abbrev pub outcome_of : Option (Idempotency N) → Option (Js N)
  outcome_of none = none
  outcome_of (some i) = i.outcome

  abbrev pub record_receipt : Option (Idempotency N) → ℕ → Completed N → Store N → Store N
  record_receipt none now c s = s
  record_receipt (some i) now c s = write_receipt i.key now c.request_digest (copy_completed c) s

  unfoldable pub completed : Validated N → List (Target × Option Str) → Completed N
  completed request entries = record {
    request_digest = request.request_digest;
    versions = entries;
    outcome = clone_outcome (outcome_of request.idempotency);
  }

  -- All conditions held: the operations, and the receipt of the result.
  unfoldable pub commit : Validated N → ℕ → Act N (MutationResult N)
  unfolding continue
  commit request now = do
    entries ← apply_operations request.operations
    λ s.
        let c = completed request entries in
        (ok (applied c), record_receipt request.idempotency now c s)

  -- The decision, after the receipts were consulted.
  unfoldable pub decide : Validated N → ℕ → Act N (MutationResult N)
  unfolding continue
  decide request now = do
    failed ← check_conditions request.conditions
    elim failed [ some r ↦ pure r | none ↦ commit request now ]

  -- What a receipt under the request's key answers.
  unfoldable pub replay : Str → Str → Receipt N → MutationResult N
  replay k digest r =
      if not (str_eq r.request_digest digest)
      then idempotency_conflict k r.request_digest digest
      else replayed (record (copy_completed r.result) { request_digest = r.request_digest })

  -- A request with a key is answered by the live receipt under it, if there is one.
  unfoldable pub run_with : Option (Idempotency N) → Validated N → ℕ → Act N (MutationResult N)
  run_with none request now s = decide request now s
  run_with (some i) request now s =
      let s' = prune_receipt_batch now s in
      elim (read_receipt i.key now s') [
        | some r ↦ (ok (replay i.key request.request_digest r), s')
        | none ↦ decide request now s'
      ]

  unfoldable pub run_validated : Validated N → ℕ → Act N (MutationResult N)
  unfolding run_with
  run_validated request now s = run_with request.idempotency request now s

-- `mutateAtomically(request)` at the time `now`.
unfoldable pub mutate_atomically :
    {N : Type 0} ⦃number : Number N⦄ → Js N → ℕ → Act N (MutationResult N)
mutate_atomically request now s = elim (validate_atomic_request request s.atomic_limits) [
  | err e ↦ (err (rejected e), s)
  | ok valid ↦ run_validated valid now s
]
