-- ===== src/Memory/Outcome.antt =====
-- What `mutateAtomically` does to a tracked store, on every branch
-- (packages/store/src/backends/memory.ts).
use mathlib.Core.Path.{fun_ext}
use mirk.Common.{
  ℕ, ◌≡◌, refl, ap, ◌∙◌, inl, inr, Option, none, some, List, [], ◌∷◌, arith, All, All-map,
  Option-cases, Bool-cases,
}
use mirk.Common.Result.{Result, ok, err}
use mirk.Atomic.Limits.{Limits}
use mirk.Atomic.Normal.{IsNormal}
use mirk.Atomic.Shape.{Condition, Expected, Validated, Idempotency}
use mirk.Atomic.Target.{Target}
use mirk.Memory.State.{Store, StoreError, Completed}
use mirk.Memory.Receipts.{write_receipt}
use mirk.Memory.Mutate.{
  MutationResult, applied, replayed, conflict, idempotency_conflict, completed, commit, decide,
  record_receipt, Versioned,
}
use mirk.Memory.View.{read, version_at}
use mirk.Memory.Update.{IsTracked}
use mirk.Memory.Apply.{effects}
use mirk.Memory.Batch.{
  Misses, after_all, entries, apply_operations_lem, read-after_all, version-after_all_missed,
  entries-version_at,
}
use mirk.Memory.Conditions.{
  SameView, SameView-IsTracked, version_at-SameView, seen, is_met, told, first_failure,
  check_conditions_lem,
}

module _ {N : Type 0} where
  -- Every target has the value and the version that it had.
  pub record SameValues (s s' : Store N) : Type 0 where
    pub values : (t : Target) → read t s' ≡ read t s
    pub tokens : (t : Target) → version_at t s' ≡ version_at t s

  -- The store holds exactly the effects of the operations, each reported version is current, and a
  -- target that no operation writes keeps its version.
  pub record IsApplied (v : Validated N) (c : Completed N) (s s' : Store N) : Type 0 where
    pub effects_hold : (t : Target) → read t s' ≡ effects v.operations (λ u. read u s) t
    pub reported : All (λ e. version_at e.0 s' ≡ e.1) c.versions
    pub others : (t : Target) → Misses t v.operations → version_at t s' ≡ version_at t s
    pub digest : c.request_digest ≡ v.request_digest

  -- What a validated request may do, by its result.
  abbrev pub Decided :
      Validated N → Store N → Result StoreError (MutationResult N) × Store N → Type 0
  Decided v s (err e, s') = ⊥
  Decided v s (ok (conflict c o), s') =
      (first_failure v.conditions (seen s) ≡ some (conflict c o)) × SameValues s s'
  Decided v s (ok (replayed c), s') = SameValues s s'
  Decided v s (ok (idempotency_conflict k e r), s') = SameValues s s'
  Decided v s (ok (applied c), s') =
      (first_failure v.conditions (seen s) ≡ none) × IsApplied v c s s'

  SameView-SameValues : {s s' : Store N} → SameView s s' → SameValues s s'
  SameView-SameValues v = record { values = v.reads; tokens = version_at-SameView v }

  -- The receipt that a commit leaves is the only difference to the state after the operations.
  read-record_receipt :
      (i : Option (Idempotency N)) (now : ℕ) (c : Completed N) (s : Store N) (t : Target)
      → (read t (record_receipt i now c s) ≡ read t s)
        × (version_at t (record_receipt i now c s) ≡ version_at t s)
  unfolding write_receipt read version_at
  read-record_receipt none now c s t = (refl, refl)
  read-record_receipt (some i) now c s (Target.key k) = (refl, refl)
  read-record_receipt (some i) now c s (Target.record_of d j) = (refl, refl)

  -- A commit applies the operations and returns the completed result.
  pub commit_lem :
      {limits : Limits} (v : Validated N) (now : ℕ) (s : Store N)
      → IsNormal limits v
      → IsTracked s
      → commit v now s ≡ (
        ok (applied (completed v (entries v.operations s))),
        record_receipt v.idempotency now
            (completed v (entries v.operations s))
            (after_all v.operations s),
      )
  unfolding commit
  commit_lem v now s n inv = rw (apply_operations_lem v.operations s n.operations_named, commit)

  commit-IsApplied :
      {limits : Limits} (v : Validated N) (now : ℕ) (s : Store N)
      → IsNormal limits v
      → IsTracked s
      → IsApplied v (completed v (entries v.operations s)) s (
          record_receipt v.idempotency now
            (completed v (entries v.operations s))
            (after_all v.operations s))
  unfolding completed
  commit-IsApplied v now s n inv =
      let c = completed v (entries v.operations s) in
      let end = after_all v.operations s in
      record {
        effects_hold = λ t.
            (read-record_receipt v.idempotency now c end t).0
            ∙ read-after_all v.operations s t n.operations_named inv;
        reported =
            All-map (λ e h. (read-record_receipt v.idempotency now c end e.0).1 ∙ h)
              (entries v.operations s)
              (entries-version_at v.operations s n.operations_named n.distinct inv);
        others = λ t m.
            (read-record_receipt v.idempotency now c end t).1
            ∙ version-after_all_missed v.operations s t n.operations_named inv m;
        digest = refl;
      }

  -- Only a conflict ends the loop over the conditions.
  pub first_failure-conflict :
      (cs : List Condition) (view : Target → Option (Versioned N)) (r : MutationResult N)
      → first_failure cs view ≡ some r
      → (c : Condition) × (o : Expected) × (r ≡ conflict c o)
  unfolding first_failure
  first_failure-conflict [] view r h = cc
  first_failure-conflict (c ∷ cs) view r h = elim (Bool-cases (is_met c.expected (view c.target))) [
    | inl m ↦ first_failure-conflict cs view r (ground arith)
    | inr m ↦ (c, told c.expected (view c.target), ground arith)
  ]

  IsApplied-SameView :
      {s s' u : Store N} (v : Validated N) (c : Completed N)
      → SameView s s'
      → IsApplied v c s' u
      → IsApplied v c s u
  IsApplied-SameView v c w a = record {
    effects_hold =
        λ t. a.effects_hold t ∙ ap (λ view. effects v.operations view t) (fun_ext w.reads);
    reported = a.reported;
    others = λ t m. a.others t m ∙ version_at-SameView w t;
    digest = a.digest;
  }

  -- The decision on a request without a live receipt.
  pub decide-Decided :
      {limits : Limits} (v : Validated N) (now : ℕ) (s : Store N)
      → IsNormal limits v
      → IsTracked s
      → Decided v s (decide v now s)
  unfolding decide
  decide-Decided v now s n inv =
      let (s', e, w) = check_conditions_lem v.conditions s n.conditions_named inv in
      elim (Option-cases (first_failure v.conditions (seen s))) [
        | inl none_failed ↦
            rw (e, decide)
              (rw (none_failed, commit_lem v now s' n (SameView-IsTracked w inv))
                (
                  none_failed,
                  IsApplied-SameView v _ w (commit-IsApplied v now s' n (SameView-IsTracked w inv)),
                ))
        | inr (r, failed) ↦
            let (c, o, is_conflict) = first_failure-conflict v.conditions (seen s) r failed in
            rw (e, decide)
              (rw (failed, is_conflict) (failed ∙ ap some is_conflict, SameView-SameValues w))
      ]
