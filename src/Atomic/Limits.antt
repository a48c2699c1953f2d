-- ===== src/Atomic/Limits.antt =====
-- The request bounds and the life of receipts (packages/store/src/atomic.ts).
use mirk.Common.{ℕ, ◌-◌, ◌*◌, ◌^◌, Bool, false, ◌||◌, Option, none, some, ltb, if◌then◌else◌}
use mirk.Common.Result.{Result, ok, err, ◌>>=◌}

-- An integer that an option gives; `negative n` is -(n + 1). Fractions are refused like these.
pub data Given : Type 0 where
  natural : ℕ → Given
  negative : ℕ → Given
  fraction : Given

-- The constructor's errors.
pub data OptionError : Type 0 where
  invalid_limit invalid_retention : OptionError

abbrev pub max_safe_integer : ℕ
max_safe_integer = 2 ^ 53 - 1

-- A positive safe integer, as a number.
unfoldable pub positive_safe : Given → Option ℕ
positive_safe (natural n) = if ltb n 1 || ltb max_safe_integer n then none else some n
positive_safe (negative n) = none
positive_safe fraction = none

pub record Limits : Type 0 where
  pub max_operations : ℕ
  pub max_conditions : ℕ
  pub max_request_bytes : ℕ

abbrev pub default_atomic_limits : Limits
default_atomic_limits = record {
  max_operations = 128;
  max_conditions = 128;
  max_request_bytes = 1024 * 1024;
}

abbrev pub in_process_atomic_limits : Limits
in_process_atomic_limits = record {
  max_operations = 4096;
  max_conditions = 1024;
  max_request_bytes = 16 * 1024 * 1024;
}

pub record Overrides : Type 0 where
  pub max_operations : Option Given
  pub max_conditions : Option Given
  pub max_request_bytes : Option Given

unfoldable pub limit_field : Option Given → ℕ → Result OptionError ℕ
limit_field none base = ok base
limit_field (some value) base = elim (positive_safe value) [
  | none ↦ err invalid_limit
  | some n ↦ ok n
]

unfoldable pub resolve_atomic_limits : Overrides → Limits → Result OptionError Limits
unfolding limit_field positive_safe
resolve_atomic_limits overrides base = do
  operations ← limit_field overrides.max_operations base.max_operations
  conditions ← limit_field overrides.max_conditions base.max_conditions
  bytes ← limit_field overrides.max_request_bytes base.max_request_bytes
  ok (record {
    max_operations = operations;
    max_conditions = conditions;
    max_request_bytes = bytes;
  })

-- The most receipts that one batch prunes.
abbrev pub receipt_prune_batch : ℕ
receipt_prune_batch = 100

-- `none` keeps receipts forever.
unfoldable pub resolve_receipt_retention : Option Given → Result OptionError (Option ℕ)
unfolding positive_safe
resolve_receipt_retention none = ok none
resolve_receipt_retention (some value) = elim (positive_safe value) [
  | none ↦ err invalid_retention
  | some n ↦ ok (some n)
]

-- `now - createdAt > retentionMs`. Where the clock stepped back the difference is negative in the
-- program and 0 here, and neither exceeds the window.
unfoldable pub is_receipt_expired : Option ℕ → ℕ → Option ℕ → Bool
is_receipt_expired created_at now none = false
is_receipt_expired none now (some retention) = false
is_receipt_expired (some created) now (some retention) = ltb retention (now - created)
