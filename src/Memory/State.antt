-- ===== src/Memory/State.antt =====
-- The fields of `InMemoryStore` (packages/store/src/backends/memory.ts), and its actions: an action
-- returns a value or throws, and what it wrote before it threw stays written.
use mirk.Common.{ℕ, ◌+◌, Option, List, [], ◌++◌}
use mirk.Common.Result.{Result, ok, err}
use mirk.Text.{Str, ascii}
use mirk.Decimal.{decimal}
use mirk.Map.{Map}
use mirk.Map
use mirk.Js.{Js}
use mirk.Filter.{FilterError}
use mirk.Atomic.Limits.{Limits}
use mirk.Atomic.Shape.{Rejection}
use mirk.Atomic.Target.{Target, target_key}

-- The result of a completed mutation: the digest, and each written target with its new version.
pub record Completed (N : Type 0) : Type 0 where
  pub request_digest : Str
  pub versions : List (Target × Option Str)
  pub outcome : Option (Js N)

pub record Receipt (N : Type 0) : Type 0 where
  pub request_digest : Str
  pub result : Completed N
  pub created_at : ℕ

pub record Store (N : Type 0) : Type 0 where
  pub kv : Map (Js N)
  pub collections : Map (Map (Js N))
  pub versions : Map Str
  pub next_version_number : ℕ
  pub version_prefix : Str
  pub receipts : Map (Receipt N)
  pub atomic_limits : Limits
  pub receipt_retention_ms : Option ℕ

-- What the constructor builds of the resolved options.
unfoldable pub new_store : {N : Type 0} → Limits → Option ℕ → Str → Store N
new_store limits retention identity = record {
  kv = [];
  collections = [];
  versions = [];
  next_version_number = 1;
  version_prefix = identity;
  receipts = [];
  atomic_limits = limits;
  receipt_retention_ms = retention;
}

pub data StoreError : Type 0 where
  invalid_collection_name : StoreError
  invalid_filter : FilterError → StoreError
  rejected : Rejection → StoreError

abbrev pub Act : Type 0 → Type 0 → Type 0
Act N A = Store N → Result StoreError A × Store N

module _ {N A : Type 0} where
  abbrev pub pure : A → Act N A
  pure a s = (ok a, s)

  abbrev pub throw : StoreError → Act N A
  throw e s = (err e, s)

module _ {N A B : Type 0} where
  unfoldable pub continue : Result StoreError A → (A → Act N B) → Act N B
  continue (ok a) f s = f a s
  continue (err e) f s = (err e, s)

  infixl 5 ◌>>=◌ ◌>>◌
  abbrev pub ◌>>=◌ : Act N A → (A → Act N B) → Act N B
  ◌>>=◌ m f s = continue (m s).0 f (m s).1

  abbrev pub ◌>>◌ : Act N A → Act N B → Act N B
  m >> n = m >>= λ _. n

-- `newVersion()`: the token, before the counter moves on.
unfoldable pub version_token : Str → ℕ → Str
version_token prefix n = prefix ++ (ascii "-v" ++ decimal n)

-- `versions.set(targetKey(target), this.newVersion())`
unfoldable pub stamp : {N : Type 0} → Target → Store N → Store N
stamp t s = record s {
  versions =
      Map.set (target_key t) (version_token s.version_prefix s.next_version_number) s.versions;
  next_version_number = s.next_version_number + 1;
}
