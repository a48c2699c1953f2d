-- ===== src/Memory/Batch.antt =====
-- The loop over the operations of an atomic request (packages/store/src/backends/memory.ts).
use mathlib.Core.Path.{fun_ext}
use mirk.Atomic.Target.Keys.{same_target_iff}
use mirk.Common.{◌≡◌, refl, sym, ap, ◌∙◌, true, false, Option, List, [], ◌∷◌, arith, All}
use mirk.Common.Result.{ok}
use mirk.Text.{Str}
use mirk.Atomic.Normal.{Distinct}
use mirk.Atomic.Shape.{Operation, operation_target}
use mirk.Atomic.Target.{Target, is_named, same_target}
use mirk.Memory.State.{Store}
use mirk.Memory.Mutate.{apply_operations}
use mirk.Memory.View.{read, version_at}
use mirk.Memory.Update.{IsTracked, Update-IsTracked}
use mirk.Memory.Apply.{effects, after, entry, apply_operation_lem, after-Update}

module _ {N : Type 0} where
  -- No operation names a record of a collection without a name.
  abbrev pub AllNamed : List (Operation N) → Type 0
  AllNamed = All (λ o. is_named (operation_target o) ≡ true)

  -- No operation writes the target.
  abbrev pub Misses : Target → List (Operation N) → Type 0
  Misses t = All (λ o. same_target t (operation_target o) ≡ false)

  pub after_all : List (Operation N) → Store N → Store N
  after_all [] s = s
  after_all (o ∷ os) s = after_all os (after o s)

  pub entries : List (Operation N) → Store N → List (Target × Option Str)
  entries [] s = []
  entries (o ∷ os) s = entry o (after o s) ∷ entries os (after o s)

  -- The loop returns an entry for each operation.
  pub apply_operations_lem :
      (os : List (Operation N)) (s : Store N)
      → AllNamed os
      → apply_operations os s ≡ (ok (entries os s), after_all os s)
  unfolding apply_operations entries after_all
  apply_operations_lem [] s h = refl
  apply_operations_lem (o ∷ os) s h =
      rw (apply_operation_lem o s h.0) (rw (apply_operations_lem os (after o s) h.1))

  pub after_all-IsTracked :
      (os : List (Operation N)) (s : Store N)
      → AllNamed os
      → IsTracked s
      → IsTracked (after_all os s)
  unfolding after_all
  after_all-IsTracked [] s h inv = inv
  after_all-IsTracked (o ∷ os) s h inv =
      after_all-IsTracked os (after o s) h.1 (Update-IsTracked (after-Update o s h.0 inv) inv)

  -- The loop leaves the receipts and the options alone.
  pub after_all_rest :
      (os : List (Operation N)) (s : Store N)
      → AllNamed os
      → IsTracked s
      → ((after_all os s).receipts ≡ s.receipts)
        × ((after_all os s).receipt_retention_ms ≡ s.receipt_retention_ms)
        × ((after_all os s).atomic_limits ≡ s.atomic_limits)
  unfolding after_all
  after_all_rest [] s h inv = (refl, refl, refl)
  after_all_rest (o ∷ os) s h inv =
      let up = after-Update o s h.0 inv in
      let (a, b, c) = after_all_rest os (after o s) h.1 (Update-IsTracked up inv) in
      (a ∙ up.receipts, b ∙ up.retention, c ∙ up.limits)

  -- The values after the loop are the effects of the operations on the values before it.
  pub read-after_all :
      (os : List (Operation N)) (s : Store N) (t : Target)
      → AllNamed os
      → IsTracked s
      → read t (after_all os s) ≡ effects os (λ u. read u s) t
  unfolding after_all effects
  read-after_all [] s t h inv = refl
  read-after_all (o ∷ os) s t h inv =
      let up = after-Update o s h.0 inv in
      read-after_all os (after o s) t h.1 (Update-IsTracked up inv)
      ∙ ap (λ view. effects os view t) (fun_ext up.reads)

  -- A target that no operation writes keeps its version.
  pub version-after_all_missed :
      (os : List (Operation N)) (s : Store N) (t : Target)
      → AllNamed os
      → IsTracked s
      → Misses t os
      → version_at t (after_all os s) ≡ version_at t s
  unfolding after_all
  version-after_all_missed [] s t h inv m = refl
  version-after_all_missed (o ∷ os) s t h inv m =
      let up = after-Update o s h.0 inv in
      version-after_all_missed os (after o s) t h.1 (Update-IsTracked up inv) m.1
      ∙ ground (
        arith,
        up.versions t,
        same_target_iff (operation_target o) t,
        same_target_iff t (operation_target o),
      )

  -- The entry of an operation is the version of its target in the state after it.
  entry-version :
      (o : Operation N) (s : Store N)
      → is_named (operation_target o) ≡ true
      → IsTracked s
      → (entry o (after o s)).1 ≡ version_at (operation_target o) (after o s)
  unfolding entry
  entry-version o s h inv = ground (
    arith,
    (after-Update o s h inv).versions (operation_target o),
    same_target_iff (operation_target o) (operation_target o),
  )

  -- Each reported version is the version of its target once all operations are done.
  pub entries-version_at :
      (os : List (Operation N)) (s : Store N)
      → AllNamed os
      → Distinct os
      → IsTracked s
      → All (λ e. version_at e.0 (after_all os s) ≡ e.1) (entries os s)
  unfolding after_all entries entry operation_target
  entries-version_at [] s h d inv = tt
  entries-version_at (o ∷ os) s h d inv =
      let up = Update-IsTracked (after-Update o s h.0 inv) inv in
      (
        version-after_all_missed os (after o s) (operation_target o) h.1 up d.0
            ∙ sym (entry-version o s h.0 inv),
        entries-version_at os (after o s) h.1 d.1 up,
      )
