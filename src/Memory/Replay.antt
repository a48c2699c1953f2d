-- ===== src/Memory/Replay.antt =====
-- Idempotency: a repeated request is answered from the receipt of the first
-- (packages/store/src/backends/memory.ts).
use mirk.Common.{
  ℕ, zero, suc, ◌≡◌, refl, sym, subst, ap, ◌≢◌, ◌∙◌, inl, inr, false, Option, none, some, [], ◌∷◌,
  arith, Option-cases, Bool-cases,
}
use mirk.Common.Result.{ok}
use mirk.Text.{Str, str_eq}
use mirk.Text.Units.{str_eq_refl}
use mirk.Map
use mirk.Map.{Map}
use mirk.Map.Laws.{get-set}
use mirk.Js.{Number, Js}
use mirk.Atomic.Limits.{Limits, is_receipt_expired, receipt_prune_batch}
use mirk.Atomic.Normal.{IsNormal, validate_atomic_request-IsNormal}
use mirk.Atomic.Shape.{Validated, Idempotency}
use mirk.Atomic.Validate.{validate_atomic_request}
use mirk.Memory.State.{Store, Completed, Receipt}
use mirk.Memory.Receipts.{
  read_receipt, write_receipt, prune_front, prune_receipt_batch, expired, when_kept,
}
use mirk.Memory.Mutate.{
  applied, replayed, idempotency_conflict, decide, replay, run_with, mutate_atomically, completed,
  record_receipt, copy_completed,
}
use mirk.Memory.Update.{IsTracked}
use mirk.Memory.Batch.{after_all, entries, after_all_rest}
use mirk.Memory.Conditions.{SameView, SameView-IsTracked, seen, first_failure, check_conditions_lem}
use mirk.Memory.Outcome.{SameValues, commit_lem, first_failure-conflict}
use mirk.Memory.Atomicity.{IsTracked-prune, SameValues-prune, prune_receipt_batch_lem, mutate_ok}

module _ {N : Type 0} where
  get-prune_front :
      (k : Str) (r : Receipt N) (left now : ℕ) (retention : Option ℕ) (m : Map (Receipt N))
      → expired now retention r ≡ false
      → Map.get k m ≡ some r
      → Map.get k (prune_front left now retention m) ≡ some r
  unfolding Map.get prune_front
  get-prune_front k r zero now retention m live_r h = h
  get-prune_front k r (suc left) now retention [] live_r h = h
  get-prune_front k r (suc left) now retention ((j, x) ∷ m) live_r h =
      ground (arith, get-prune_front k r left now retention m live_r)

  get-when_kept :
      (k : Str) (r : Receipt N) (o : Option ℕ) (m : Map (Receipt N)) (s : Store N)
      → Map.get k s.receipts ≡ some r
      → Map.get k m ≡ some r
      → Map.get k (when_kept o s (record s { receipts = m })).receipts ≡ some r
  get-when_kept k r none m s h g = h
  get-when_kept k r (some t) m s h g = g

  -- A batch of pruning never takes a receipt that has not expired: it is read afterwards.
  pub read_receipt-prune :
      (k : Str) (r : Receipt N) (now : ℕ) (s : Store N)
      → Map.get k s.receipts ≡ some r
      → expired now s.receipt_retention_ms r ≡ false
      → read_receipt k now (prune_receipt_batch now s) ≡ some r
  unfolding read_receipt
  read_receipt-prune k r now s h live_r =
      let (m, e) = prune_receipt_batch_lem now s in
      let same : (prune_receipt_batch now s).receipt_retention_ms ≡ s.receipt_retention_ms = rw e in
      let found : Map.get k (prune_receipt_batch now s).receipts ≡ some r =
        unfold prune_receipt_batch in
        get-when_kept k r s.receipt_retention_ms _ s h (
          get-prune_front k r receipt_prune_batch now s.receipt_retention_ms s.receipts live_r h) in
      rw (found, same) (rw live_r)

  -- What the store keeps of a request that was applied under a key.
  pub record Receipted (i : Idempotency N) (v : Validated N) (now : ℕ) (c : Completed N)
      (s s' : Store N) : Type 0 where
    pub kept :
        Map.get i.key s'.receipts
        ≡ some (record {
          request_digest = v.request_digest;
          result = copy_completed c;
          created_at = now;
        })
    pub digest : c.request_digest ≡ v.request_digest
    pub retention : s'.receipt_retention_ms ≡ s.receipt_retention_ms
    pub limits : s'.atomic_limits ≡ s.atomic_limits

  Receipted-commit :
      {limits : Limits} (i : Idempotency N) (v : Validated N) (now : ℕ) (s : Store N)
      → IsNormal limits v
      → IsTracked s
      → Receipted i v now (completed v (entries v.operations s)) s (
          record_receipt
            (some i)
            now
            (completed v (entries v.operations s))
            (after_all v.operations s))
  unfolding write_receipt completed
  Receipted-commit i v now s n inv =
      let (a, b, c) = after_all_rest v.operations s n.operations_named inv in
      record { kept = rw get-set (rw str_eq_refl refl); digest = refl; retention = b; limits = c }

  -- The same of a store that only shows the same values.
  Receipted-SameView :
      {i : Idempotency N} {v : Validated N} {now : ℕ} {c : Completed N} {s s1 s' : Store N}
      → SameView s s1
      → Receipted i v now c s1 s'
      → Receipted i v now c s s'
  Receipted-SameView w r = record {
    kept = r.kept;
    digest = r.digest;
    retention = r.retention ∙ w.retention;
    limits = r.limits ∙ w.limits;
  }

  -- Whatever led a keyed request to be applied, the store keeps its receipt.
  decide-Receipted :
      {limits : Limits} (i : Idempotency N) (v : Validated N) (now : ℕ) (s s' : Store N)
      (c : Completed N)
      → IsNormal limits v
      → IsTracked s
      → v.idempotency ≡ some i
      → decide v now s ≡ (ok (applied c), s')
      → Receipted i v now c s s'
  unfolding decide
  decide-Receipted i v now s s' c n inv key_given done =
      let (s1, e, w) = check_conditions_lem v.conditions s n.conditions_named inv in
      let inv1 = SameView-IsTracked w inv in
      elim (Option-cases (first_failure v.conditions (seen s))) [
        | inl f ↦
            let c1 = completed v (entries v.operations s1) in
            let end = after_all v.operations s1 in
            let p : decide v now s ≡ (ok (applied c1), record_receipt v.idempotency now c1 end) =
              rw (e, decide) (rw (f, commit_lem v now s1 n inv1)) in
            let same_result : c1 ≡ c = cc in
            let same_store : record_receipt v.idempotency now c1 end ≡ s' = cc in
            let keyed : record_receipt (some i) now c1 end ≡ s' =
              ap (λ o. record_receipt o now c1 end) (sym key_given) ∙ same_store in
            Receipted-SameView w (
              subst (λ x. Receipted i v now x s1 s') same_result
                (subst (Receipted i v now c1 s1) keyed (Receipted-commit i v now s1 n inv1)))
        | inr (r, f) ↦
            let (d, o, is_conflict) = first_failure-conflict v.conditions (seen s) r f in
            let p : decide v now s ≡ (ok r, s1) = rw (e, decide) (rw f refl) in cc
      ]

  -- A receipt never answers that the request was applied.
  replay-not_applied :
      (k digest : Str) (r : Receipt N) (c : Completed N) → replay k digest r ≢ applied c
  unfolding replay
  replay-not_applied k digest r c h = elim (Bool-cases (str_eq r.request_digest digest)) [
    | inl e ↦
        let q : replay k digest r
            ≡ replayed (record (copy_completed r.result) { request_digest = r.request_digest }) =
          rw (e, replay) refl in
        cc
    | inr e ↦
        let q : replay k digest r ≡ idempotency_conflict k r.request_digest digest =
          rw (e, replay) refl in
        cc
  ]

  -- A receipt of the same request is answered by what it keeps.
  replay-same :
      (k digest : Str) (result : Completed N) (created : ℕ)
      → replay k digest (record { request_digest = digest; result = result; created_at = created })
        ≡ replayed (record (copy_completed result) { request_digest = digest })
  unfolding replay
  replay-same k digest result created = rw (str_eq_refl digest, replay)

  -- The same of a whole run: the receipts were pruned first, and no receipt answered.
  run_with-Receipted :
      {limits : Limits} (i : Idempotency N) (v : Validated N) (now : ℕ) (s s' : Store N)
      (c : Completed N)
      → IsNormal limits v
      → IsTracked s
      → v.idempotency ≡ some i
      → run_with (some i) v now s ≡ (ok (applied c), s')
      → Receipted i v now c s s'
  unfolding run_with replay
  run_with-Receipted i v now s s' c n inv key_given done =
      let p = prune_receipt_batch now s in
      elim (Option-cases (read_receipt i.key now p)) [
        | inl f ↦
            let d : decide v now p ≡ (ok (applied c), s') = rw (f, run_with) at done in
            let r = decide-Receipted i v now p s' c n (IsTracked-prune now s inv) key_given d in
            let (m, e) = prune_receipt_batch_lem now s in
            record {
              kept = r.kept;
              digest = r.digest;
              retention = r.retention ∙ rw e;
              limits = r.limits ∙ rw e;
            }
        | inr (r, f) ↦
            let told : (ok (replay i.key v.request_digest r), p) ≡ (ok (applied c), s') =
              rw (f, run_with) at done in
            absurd (replay-not_applied i.key v.request_digest r c cc)
      ]

  run_with-replayed :
      (i : Idempotency N) (v : Validated N) (now later : ℕ) (c : Completed N) (s s' : Store N)
      → Receipted i v now c s s'
      → is_receipt_expired (some now) later s.receipt_retention_ms ≡ false
      → run_with (some i) v later s' ≡ (
        ok (
            replayed
              (record (copy_completed (copy_completed c)) { request_digest = v.request_digest })),
        prune_receipt_batch later s',
      )
  unfolding run_with
  run_with-replayed i v now later c s s' r live_r =
      let found = read_receipt-prune i.key _ later s' r.kept (rw (r.retention) live_r) in
      rw (found, run_with) (rw (replay-same i.key v.request_digest (copy_completed c) now) refl)

module _ {N : Type 0} ⦃number : Number N⦄ where
  -- A request with an idempotency key that was applied to a tracked store, sent again before its
  -- receipt has expired, is answered as replayed with the first digest and versions, and no value
  -- or version changes.
  pub mutate_atomically-replayed :
      (request : Js N) (v : Validated N) (i : Idempotency N) (now later : ℕ) (s s' : Store N)
      (c : Completed N)
      → IsTracked s
      → validate_atomic_request request s.atomic_limits ≡ ok v
      → v.idempotency ≡ some i
      → mutate_atomically request now s ≡ (ok (applied c), s')
      → is_receipt_expired (some now) later s.receipt_retention_ms ≡ false
      → (d : Completed N) × (mutate_atomically request later s'
          ≡ (ok (replayed d), prune_receipt_batch later s'))
        × (d.request_digest ≡ c.request_digest)
        × (d.versions ≡ c.versions)
        × SameValues s' (prune_receipt_batch later s')
  mutate_atomically-replayed request v i now later s s' c inv valid key_given done live_r =
      let first : run_with (some i) v now s ≡ (ok (applied c), s') =
        ap (λ o. run_with o v now s) (sym key_given)
        ∙ sym (mutate_ok request v now s valid)
        ∙ done in
      let n = validate_atomic_request-IsNormal request s.atomic_limits v valid in
      let r = run_with-Receipted i v now s s' c n inv key_given first in
      let valid' : validate_atomic_request request s'.atomic_limits ≡ ok v =
        ap (validate_atomic_request request) r.limits ∙ valid in
      (
        _,
        mutate_ok request v later s' valid'
            ∙ ap (λ o. run_with o v later s') key_given
            ∙ run_with-replayed i v now later c s s' r live_r,
        sym r.digest,
        refl,
        SameValues-prune later s',
      )
