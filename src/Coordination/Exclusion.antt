-- ===== src/Coordination/Exclusion.antt =====
-- Exclusion by leases (packages/store/src/coordination.ts).
use mirk.Common.{
  ℕ, ◌+◌, ◌<◌, ◌≡◌, refl, inl, inr, Bool-cases, Option-cases, ap, ◌↔◌, true, false, Option, none,
  some, arith,
}
use mirk.Text.{Str}
use mirk.Text.Units.{str_eq_iff, str_eq_refl}
use mirk.Coordination.{
  Tables, LeaseRow, write, owns, next_generation, try_acquire, renew, release, is_owned,
}

owns-same :
    (o o' : Str) (g g' now : ℕ) (r : Option LeaseRow)
    → owns o g now r ≡ true
    → owns o' g' now r ≡ true
    → (o ≡ o') × (g ≡ g')
owns-same o o' g g' now none p q = cc
owns-same o o' g g' now (some r) p q =
    ground (arith, str_eq_iff r.owner_token o, str_eq_iff r.owner_token o')

-- At one time a key has at most one owner, under one generation.
pub is_owned-same :
    (n k o o' : Str) (g g' now : ℕ) (t : Tables)
    → is_owned n k o g now t ≡ true
    → is_owned n k o' g' now t ≡ true
    → (o ≡ o') × (g ≡ g')
unfolding is_owned
is_owned-same n k o o' g g' now t p q = owns-same o o' g g' now (t.leases n k) p q

-- While a lease is owned no acquisition of its key is granted, and the tables stay as they were.
pub try_acquire-is_owned :
    (n k o other : Str) (g lease_ms now : ℕ) (t : Tables)
    → is_owned n k o g now t ≡ true
    → try_acquire n k other lease_ms now t ≡ (none, t)
unfolding is_owned try_acquire
try_acquire-is_owned n k o other g lease_ms now t p = ground arith

-- A granted lease is owned by its owner under its generation at every time before it runs out, as
-- long as nothing else is done.
pub try_acquire-grants :
    (n k owner : Str) (g lease_ms now later : ℕ) (t : Tables)
    → (try_acquire n k owner lease_ms now t).0 ≡ some g
    → later < now + lease_ms
    → is_owned n k owner g later (try_acquire n k owner lease_ms now t).1 ≡ true
unfolding is_owned try_acquire next_generation write
try_acquire-grants n k owner g lease_ms now later t p h =
    ground (arith, str_eq_refl n, str_eq_refl k, str_eq_refl owner)

-- While a lease is owned under a later generation, an owner of an earlier generation neither
-- renews nor releases it.
pub renew-release-stale :
    (n k o o' : Str) (g g' lease_ms now : ℕ) (t : Tables)
    → is_owned n k o' g' now t ≡ true
    → g < g'
    → (renew n k o g lease_ms now t ≡ (false, t)) × (release n k o g now t ≡ (false, t))
unfolding is_owned renew release
renew-release-stale n k o o' g g' lease_ms now t p h =
    elim (Bool-cases (owns o g now (t.leases n k))) [
      | inl q ↦ let (a, b) = owns-same o o' g g' now (t.leases n k) q p in absurd (omega arith)
      | inr q ↦ rw (q, renew, release) (refl, refl)
    ]

-- The lease that stands in the way of an acquisition.
owned_by_row :
    (n k : Str) (now : ℕ) (t : Tables) (row : LeaseRow)
    → t.leases n k ≡ some row
    → now < row.expires_at_ms
    → is_owned n k row.owner_token row.fencing_generation now t ≡ true
unfolding is_owned
owned_by_row n k now t row e h = ground (arith, str_eq_refl row.owner_token)

-- An acquisition is refused exactly when somebody owns the key at that time.
pub try_acquire-none_iff :
    (n k owner : Str) (lease_ms now : ℕ) (t : Tables)
    → ((try_acquire n k owner lease_ms now t).0 ≡ none)
      ↔ ((o : Str) × (g : ℕ) × (is_owned n k o g now t ≡ true))
unfolding try_acquire next_generation
try_acquire-none_iff n k owner lease_ms now t = (
  λ refused. elim (Option-cases (t.leases n k)) [
    | inl e ↦ absurd (ground arith)
    | inr (row, e) ↦
        (row.owner_token, row.fencing_generation, owned_by_row n k now t row e (ground arith))
  ],
  λ owned. ap (λ r. r.0) (try_acquire-is_owned n k owned.0 owner owned.1 lease_ms now t owned.2),
)
