-- ===== src/Atomic/Shape.antt =====
-- The data of an atomic request after validation (packages/store/src/atomic.ts).
use mirk.Common.{Option, List, []}
use mirk.Text.{Str, ascii}
use mirk.Js.{Js, str, Fields, at}
use mirk.Canonical.{CanonicalError}
use mirk.Atomic.Target.{Target, key, record_of}

-- `AtomicMutationRejectionCode`; `uncaught` is an error of canonical JSON that is not caught.
pub data Rejection : Type 0 where
  invalid_request unsupported_operation condition_limit_exceeded : Rejection
  operation_limit_exceeded request_size_exceeded outcome_size_exceeded : Rejection
  uncaught : CanonicalError → Rejection

pub data Expected : Type 0 where
  missing present : Expected
  version : Str → Expected

pub record Condition : Type 0 where
  pub target : Target
  pub expected : Expected

pub data Operation (N : Type 0) : Type 0 where
  set : Str → Js N → Operation N
  delete_key : Str → Operation N
  put : Str → Fields N → Operation N
  remove : Str → Str → Operation N

pub record Idempotency (N : Type 0) : Type 0 where
  pub key : Str
  pub outcome : Option (Js N)

pub record Validated (N : Type 0) : Type 0 where
  pub conditions : List Condition
  pub operations : List (Operation N)
  pub idempotency : Option (Idempotency N)
  pub request_digest : Str

module _ {N : Type 0} where
  abbrev pub string_or_empty : Js N → Str
  string_or_empty (str s) = s
  string_or_empty _ = []

  -- `item.id`, which the validation found to be a string.
  unfoldable pub item_id : Fields N → Str
  item_id item = string_or_empty (at (ascii "id") item)

  unfoldable pub operation_target : Operation N → Target
  unfolding item_id
  operation_target (set k v) = key k
  operation_target (delete_key k) = key k
  operation_target (put collection item) = record_of collection (item_id item)
  operation_target (remove collection id) = record_of collection id
