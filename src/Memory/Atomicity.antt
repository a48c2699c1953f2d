-- ===== src/Memory/Atomicity.antt =====
-- `mutateAtomically` as a whole: all of a request or none of it, whatever was asked
-- (packages/store/src/backends/memory.ts).
use mathlib.Core.Path.{fun_ext}
use mirk.Common.{
  subst, ℕ, ◌≡◌, refl, sym, ap, ◌∙◌, inl, inr, Option, none, some, Option-cases, Bool-cases,
}
use mirk.Common.Result.{Result, ok, err, Result-cases}
use mirk.Text.{Str, str_eq}
use mirk.Map.{Map}
use mirk.Js.{Number, Js}
use mirk.Atomic.Limits.{Limits}
use mirk.Atomic.Normal.{IsNormal, validate_atomic_request-IsNormal}
use mirk.Atomic.Shape.{Rejection, Validated, Idempotency}
use mirk.Atomic.Target.{Target}
use mirk.Atomic.Validate.{validate_atomic_request}
use mirk.Memory.State.{
  Store, StoreError, invalid_collection_name, invalid_filter, rejected, Receipt,
}
use mirk.Memory.Receipts.{read_receipt, prune_receipt_batch, when_kept}
use mirk.Memory.Mutate.{
  MutationResult, applied, replayed, conflict, idempotency_conflict, decide, replay, run_with,
  run_validated, mutate_atomically,
}
use mirk.Memory.View.{read, version_at}
use mirk.Memory.Update.{IsTracked}
use mirk.Memory.Apply.{effects}
use mirk.Memory.Conditions.{seen, first_failure}
use mirk.Memory.Outcome.{SameValues, Decided, decide-Decided}

module _ {N : Type 0} where
  SameValues-trans : {s t u : Store N} → SameValues s t → SameValues t u → SameValues s u
  SameValues-trans a b = record {
    values = λ x. b.values x ∙ a.values x;
    tokens = λ x. b.tokens x ∙ a.tokens x;
  }

  seen-SameValues : {s s' : Store N} → SameValues s s' → seen s' ≡ seen s
  unfolding seen
  seen-SameValues v = fun_ext (λ t. rw (v.values t, v.tokens t))

  with_receipts : (s : Store N) (m : Map (Receipt N)) → SameValues s (record s { receipts = m })
  unfolding read version_at
  with_receipts s m = record { values = same; tokens = λ t. refl }
    where
      same : (t : Target) → read t (record s { receipts = m }) ≡ read t s
      same (Target.key k) = refl
      same (Target.record_of c i) = refl

  kept_or_pruned :
      (o : Option ℕ) (m' : Map (Receipt N)) (s : Store N)
      → (m : Map (Receipt N)) × (when_kept o s (record s { receipts = m' })
          ≡ record s { receipts = m })
  kept_or_pruned none m' s = (s.receipts, refl)
  kept_or_pruned (some r) m' s = (m', refl)

  -- Pruning changes the receipts and nothing else.
  pub prune_receipt_batch_lem :
      (now : ℕ) (s : Store N)
      → (m : Map (Receipt N)) × (prune_receipt_batch now s ≡ record s { receipts = m })
  unfolding prune_receipt_batch
  prune_receipt_batch_lem now s = kept_or_pruned s.receipt_retention_ms _ s

  pub SameValues-prune : (now : ℕ) (s : Store N) → SameValues s (prune_receipt_batch now s)
  SameValues-prune now s = let (m, e) = prune_receipt_batch_lem now s in rw e (with_receipts s m)

  -- The receipts are no part of the invariant.
  pub IsTracked-receipts :
      (s : Store N) (m : Map (Receipt N)) → IsTracked s → IsTracked (record s { receipts = m })
  IsTracked-receipts s m inv =
      let v = with_receipts s m in
      record {
        tracked = λ t. rw (v.values t, v.tokens t) (inv.tracked t);
        fresh = λ t n h p. inv.fresh t n h (rw (v.tokens t) at p);
        distinct = λ t u w p q. inv.distinct t u w (rw (v.tokens t) at p) (rw (v.tokens u) at q);
      }

  pub IsTracked-prune :
      (now : ℕ) (s : Store N) → IsTracked s → IsTracked (prune_receipt_batch now s)
  IsTracked-prune now s inv =
      let (m, e) = prune_receipt_batch_lem now s in rw e (IsTracked-receipts s m inv)

  Decided-SameValues :
      {s p : Store N} (v : Validated N) (x : Result StoreError (MutationResult N) × Store N)
      → SameValues s p
      → Decided v p x
      → Decided v s x
  Decided-SameValues v (err e, s') w d = d
  Decided-SameValues v (ok (conflict c o), s') w d =
      (ap (first_failure v.conditions) (sym (seen-SameValues w)) ∙ d.0, SameValues-trans w d.1)
  Decided-SameValues v (ok (replayed c), s') w d = SameValues-trans w d
  Decided-SameValues v (ok (idempotency_conflict k e r), s') w d = SameValues-trans w d
  Decided-SameValues v (ok (applied c), s') w d = (
    ap (first_failure v.conditions) (sym (seen-SameValues w)) ∙ d.0,
    record {
      effects_hold =
          λ t. d.1.effects_hold t ∙ ap (λ view. effects v.operations view t) (fun_ext w.values);
      reported = d.1.reported;
      others = λ t m. d.1.others t m ∙ w.tokens t;
      digest = d.1.digest;
    },
  )

  replay-Decided :
      (v : Validated N) (k digest : Str) (r : Receipt N) (s s' : Store N)
      → SameValues s s'
      → Decided v s (ok (replay k digest r), s')
  unfolding replay
  replay-Decided v k digest r s s' w = elim (Bool-cases (str_eq r.request_digest digest)) [
    | inl e ↦ rw (e, replay) w
    | inr e ↦ rw (e, replay) w
  ]

  run_with-Decided :
      {limits : Limits} (o : Option (Idempotency N)) (v : Validated N) (now : ℕ) (s : Store N)
      → IsNormal limits v
      → IsTracked s
      → Decided v s (run_with o v now s)
  unfolding run_with
  run_with-Decided none v now s n inv = decide-Decided v now s n inv
  run_with-Decided (some i) v now s n inv =
      let p = prune_receipt_batch now s in
      let w = SameValues-prune now s in
      elim (Option-cases (read_receipt i.key now p)) [
        | inl f ↦
            rw (f, run_with)
              (Decided-SameValues v (decide v now p) w
                (decide-Decided v now p n (IsTracked-prune now s inv)))
        | inr (r, f) ↦ rw (f, run_with) (replay-Decided v i.key v.request_digest r s p w)
      ]

-- What a caller is told of a request, and what then holds of the store.
abbrev pub Answered :
    {N : Type 0} ⦃number : Number N⦄
    → Js N
    → Store N
    → Result StoreError (MutationResult N) × Store N
    → Type 0
Answered request s (err (rejected e), s') =
    (validate_atomic_request request s.atomic_limits ≡ err e) × (s' ≡ s)
Answered request s (err invalid_collection_name, s') = ⊥
Answered request s (err (invalid_filter e), s') = ⊥
Answered {N} request s (ok r, s') =
    (v : Validated N) × (validate_atomic_request request s.atomic_limits ≡ ok v)
    × Decided v s (ok r, s')

module _ {N : Type 0} ⦃number : Number N⦄ where
  Decided-Answered :
      (request : Js N) (s : Store N) (v : Validated N)
      (x : Result StoreError (MutationResult N) × Store N)
      → validate_atomic_request request s.atomic_limits ≡ ok v
      → Decided v s x
      → Answered request s x
  Decided-Answered request s v (err (rejected k), s') e d = absurd d
  Decided-Answered request s v (err invalid_collection_name, s') e d = d
  Decided-Answered request s v (err (invalid_filter f), s') e d = d
  Decided-Answered request s v (ok r, s') e d = (v, e, d)

  pub mutate_ok :
      (request : Js N) (v : Validated N) (now : ℕ) (s : Store N)
      → validate_atomic_request request s.atomic_limits ≡ ok v
      → mutate_atomically request now s ≡ run_with v.idempotency v now s
  unfolding mutate_atomically run_validated
  mutate_ok request v now s e = rw (e, mutate_atomically)

  pub mutate_err :
      (request : Js N) (k : Rejection) (now : ℕ) (s : Store N)
      → validate_atomic_request request s.atomic_limits ≡ err k
      → mutate_atomically request now s ≡ (err (rejected k), s)
  unfolding mutate_atomically
  mutate_err request k now s e = rw (e, mutate_atomically)

  -- Every answer of mutateAtomically on a tracked store: a rejection leaves the store untouched;
  -- a conflict names the first failed condition and what its target has, and leaves every value
  -- and version; a replay or an idempotency conflict leaves every value and version; an applied
  -- request had no failed condition, and the store then holds exactly the effects of its
  -- operations, with each returned version current, and every target that no operation writes has
  -- the version it had.
  pub mutate_atomically-Answered :
      (request : Js N) (now : ℕ) (s : Store N)
      → IsTracked s
      → Answered request s (mutate_atomically request now s)
  mutate_atomically-Answered request now s inv =
      elim (Result-cases (validate_atomic_request request s.atomic_limits)) [
        | inl (v, e) ↦ subst (Answered request s) (sym (mutate_ok request v now s e)) (
            Decided-Answered request s v (run_with v.idempotency v now s) e (
              run_with-Decided v.idempotency v now s
                (validate_atomic_request-IsNormal request s.atomic_limits v e) inv))
        | inr (k, e) ↦ subst (Answered request s) (sym (mutate_err request k now s e)) (e, refl)
      ]
