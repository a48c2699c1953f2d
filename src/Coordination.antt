-- ===== src/Coordination.antt =====
-- The leases of `SqliteCoordinator` (packages/store/src/coordination.ts): the two tables by namespace
-- and key, and each transaction as one function. The clock and the owner tokens are arguments.
pub mod Fencing
pub mod Exclusion
use mirk.Common.{ℕ, ◌+◌, Bool, true, false, Option, none, some, ◌&&◌, ltb, leb, ◌==◌, if◌then◌else◌}
use mirk.Text.{Str, str_eq}

-- `_mirk_coordination_leases`, less its two key columns
pub record LeaseRow : Type 0 where
  pub owner_token : Str
  pub fencing_generation : ℕ
  pub acquired_at_ms : ℕ
  pub expires_at_ms : ℕ
  pub updated_at_ms : ℕ

abbrev pub Table : Type 0 → Type 0
Table A = Str → Str → Option A

pub record Tables : Type 0 where
  pub generations : Table ℕ
  pub leases : Table LeaseRow

-- The tables as the constructor creates them.
unfoldable pub no_leases : Tables
no_leases = record { generations = λ m j. none; leases = λ m j. none }

-- One row is written or deleted.
unfoldable pub write : {A : Type 0} → Str → Str → Option A → Table A → Table A
write n k row table m j = if str_eq n m && str_eq k j then row else table m j

-- `row?.last_generation ?? 0`
abbrev pub or_zero : Option ℕ → ℕ
or_zero none = 0
or_zero (some g) = g

-- `#nextGeneration(key)`
unfoldable pub next_generation : Str → Str → Tables → ℕ × Tables
next_generation n k t =
    let g = or_zero (t.generations n k) + 1 in
    (g, record t { generations = write n k (some g) t.generations })

-- The row of a new lease.
abbrev pub lease : Str → ℕ → ℕ → ℕ → LeaseRow
lease owner g now lease_ms = record {
  owner_token = owner;
  fencing_generation = g;
  acquired_at_ms = now;
  expires_at_ms = now + lease_ms;
  updated_at_ms = now;
}

-- The WHERE clause of the takeover: the row has the generation that was read, and has run out.
abbrev pub unchanged : LeaseRow → ℕ → Option LeaseRow → Bool
unchanged row now none = false
unchanged row now (some r) =
    (r.fencing_generation == row.fencing_generation) && leb r.expires_at_ms now

-- `#tryAcquire(key, ownerToken, leaseMs)`, which is one immediate transaction: the generation that
-- was granted, if the key is free or its lease has run out.
unfoldable pub try_acquire : Str → Str → Str → ℕ → ℕ → Tables → Option ℕ × Tables
unfolding next_generation
try_acquire n k owner lease_ms now t = elim (t.leases n k) [
  | none ↦
      let (g, t') = next_generation n k t in
      (some g, record t' { leases = write n k (some (lease owner g now lease_ms)) t'.leases })
  | some row ↦
      let (g, t') = next_generation n k t in
      let replaced = record t' {
        leases = write n k (some (lease owner g now lease_ms)) t'.leases;
      } in
      if ltb now row.expires_at_ms
      then (none, t)
      else if unchanged row now (t'.leases n k)
      then (some g, replaced)
      else (none, t')
]

-- The lease that an owner holds: the WHERE clause of `#renew` and `#release`, and `#isOwned`.
abbrev pub owns : Str → ℕ → ℕ → Option LeaseRow → Bool
owns owner g now none = false
owns owner g now (some r) =
    str_eq r.owner_token owner && (r.fencing_generation == g) && ltb now r.expires_at_ms

abbrev extended : ℕ → ℕ → Option LeaseRow → Option LeaseRow
extended now lease_ms none = none
extended now lease_ms (some r) =
    some (record r { expires_at_ms = now + lease_ms; updated_at_ms = now })

-- `#renew(key, ownerToken, fencingGeneration, leaseMs)`
unfoldable pub renew : Str → Str → Str → ℕ → ℕ → ℕ → Tables → Bool × Tables
renew n k owner g lease_ms now t =
    if owns owner g now (t.leases n k)
    then (true, record t { leases = write n k (extended now lease_ms (t.leases n k)) t.leases })
    else (false, t)

-- `#release(key, ownerToken, fencingGeneration)`
unfoldable pub release : Str → Str → Str → ℕ → ℕ → Tables → Bool × Tables
release n k owner g now t =
    if owns owner g now (t.leases n k)
    then (true, record t { leases = write n k none t.leases })
    else (false, t)

-- `#isOwned(key, ownerToken, fencingGeneration)`
unfoldable pub is_owned : Str → Str → Str → ℕ → ℕ → Tables → Bool
is_owned n k owner g now t = owns owner g now (t.leases n k)
