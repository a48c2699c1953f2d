-- ===== src/Memory/Update.antt =====
-- One write or one removal of an `InMemoryStore`, by what it changes, and the invariant that every
-- one of them keeps (packages/store/src/backends/memory.ts).
use mathlib.Core.List.{append_cancel_left}
use mirk.Atomic.Target.Keys.{same_target_iff}
use mirk.Common.{ℕ, ◌+◌, ◌≤◌, ◌≡◌, ◌≢◌, Bool, true, false, Option, none, some, arith, if◌then◌else◌}
use mirk.Text.{Str, ascii}
use mirk.Decimal.{decimal}
use mirk.Decimal.Laws.{decimal-injective}
use mirk.Js.{Js}
use mirk.Atomic.Target.{Target, same_target}
use mirk.Memory.State.{Store, version_token}
use mirk.Memory.View.{read, version_at}

abbrev pub is_some : {A : Type 0} → Option A → Bool
is_some none = false
is_some (some a) = true

-- Tokens of one store with different numbers are different.
version_token-injective :
    (prefix : Str) (m n : ℕ) → version_token prefix m ≡ version_token prefix n → m ≡ n
unfolding version_token
version_token-injective prefix m n e =
    decimal-injective m n
      (append_cancel_left (ascii "-v") (decimal m) (decimal n) (append_cancel_left prefix _ _ e))

module _ {N : Type 0} where
  abbrev pub next_token : Store N → Str
  next_token s = version_token s.version_prefix s.next_version_number

  -- A target has a version exactly while it has a value; no version is a token that is still to
  -- come; and no two targets share a version.
  pub record IsTracked (s : Store N) : Type 0 where
    pub tracked : (t : Target) → is_some (version_at t s) ≡ is_some (read t s)
    pub fresh :
        (t : Target) (n : ℕ)
        → s.next_version_number ≤ n
        → version_at t s ≢ some (version_token s.version_prefix n)
    pub distinct :
        (t u : Target) (v : Str) → version_at t s ≡ some v → version_at u s ≡ some v → t ≡ u

  abbrev pub token_if : Option (Js N) → Str → Option Str
  token_if none token = none
  token_if (some v) token = some token

  abbrev pub count_if : Option (Js N) → ℕ → ℕ
  count_if none n = n
  count_if (some v) n = n + 1

  -- From `s` to `s'` the target `t` takes the value `v`, or loses its value.
  pub record Update (t : Target) (v : Option (Js N)) (s s' : Store N) : Type 0 where
    pub reads : (u : Target) → read u s' ≡ (if same_target t u then v else read u s)
    pub versions :
        (u : Target)
        → version_at u s' ≡ (if same_target t u then token_if v (next_token s) else version_at u s)
    pub next : s'.next_version_number ≡ count_if v s.next_version_number
    pub prefix : s'.version_prefix ≡ s.version_prefix
    pub receipts : s'.receipts ≡ s.receipts
    pub retention : s'.receipt_retention_ms ≡ s.receipt_retention_ms
    pub limits : s'.atomic_limits ≡ s.atomic_limits

  -- Every update keeps the invariant.
  pub Update-IsTracked :
      {t : Target} {v : Option (Js N)} {s s' : Store N}
      → Update t v s s'
      → IsTracked s
      → IsTracked s'
  Update-IsTracked {t} {v} {s} {s'} up inv = record {
    tracked = λ u. ground (arith, up.reads u, up.versions u, inv.tracked u);
    fresh = λ u n h e. ground (
      arith,
      up.versions u,
      up.next,
      inv.fresh u n,
      rw up.prefix at e,
      version_token-injective s.version_prefix s.next_version_number n,
    );
    distinct = λ u w x p q. ground (
      arith,
      up.versions u,
      up.versions w,
      inv.distinct u w x,
      inv.fresh u s.next_version_number,
      inv.fresh w s.next_version_number,
      same_target_iff t u,
      same_target_iff t w,
    );
  }
