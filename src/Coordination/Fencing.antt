-- ===== src/Coordination/Fencing.antt =====
-- The generations that leases are granted under (packages/store/src/coordination.ts).
use mirk.Common.{ℕ, ◌+◌, ◌≤◌, ◌<◌, ◌≡◌, some, arith}
use mirk.Text.{Str}
use mirk.Text.Units.{str_eq_iff, str_eq_refl}
use mirk.Coordination.{Tables, write, or_zero, next_generation, try_acquire, renew, release}

-- One transaction of any process, under any namespace and key, at any time of its clock.
pub data Step (t : Tables) : Tables → Type 0 where
  acquire_step :
      (n k owner : Str) (lease_ms now : ℕ) → Step t (try_acquire n k owner lease_ms now t).1
  renew_step : (n k owner : Str) (g lease_ms now : ℕ) → Step t (renew n k owner g lease_ms now t).1
  release_step : (n k owner : Str) (g now : ℕ) → Step t (release n k owner g now t).1

-- Any number of transactions, one after the other.
pub data Steps : Tables → Tables → Type 0 where
  stay : {t : Tables} → Steps t t
  more : {t u v : Tables} → Step t u → Steps u v → Steps t v

-- The last generation that was granted for a key, 0 if none was.
abbrev pub last : Str → Str → Tables → ℕ
last n k t = or_zero (t.generations n k)

try_acquire-last :
    (n k m j owner : Str) (lease_ms now : ℕ) (t : Tables)
    → last m j t ≤ last m j (try_acquire n k owner lease_ms now t).1
unfolding try_acquire next_generation write
try_acquire-last n k m j owner lease_ms now t = ground (arith, str_eq_iff n m, str_eq_iff k j)

renew-last :
    (n k m j owner : Str) (g lease_ms now : ℕ) (t : Tables)
    → last m j (renew n k owner g lease_ms now t).1 ≡ last m j t
unfolding renew
renew-last n k m j owner g lease_ms now t = ground arith

release-last :
    (n k m j owner : Str) (g now : ℕ) (t : Tables)
    → last m j (release n k owner g now t).1 ≡ last m j t
unfolding release
release-last n k m j owner g now t = ground arith

Steps-last : {t u : Tables} (m j : Str) → Steps t u → last m j t ≤ last m j u
Steps-last m j stay = omega arith
Steps-last m j (more {t} (acquire_step n k owner l now) ss) =
    let a = try_acquire-last n k m j owner l now t in let b = Steps-last m j ss in omega arith
Steps-last m j (more {t} (renew_step n k owner g l now) ss) =
    let a = renew-last n k m j owner g l now t in let b = Steps-last m j ss in omega arith
Steps-last m j (more {t} (release_step n k owner g now) ss) =
    let a = release-last n k m j owner g now t in let b = Steps-last m j ss in omega arith

-- A grant takes the next generation.
pub try_acquire-some :
    (n k owner : Str) (lease_ms now g : ℕ) (t : Tables)
    → (try_acquire n k owner lease_ms now t).0 ≡ some g
    → (g ≡ last n k t + 1) × (last n k (try_acquire n k owner lease_ms now t).1 ≡ g)
unfolding try_acquire next_generation write
try_acquire-some n k owner lease_ms now g t h = ground (arith, str_eq_refl n, str_eq_refl k)

-- Whatever acquisitions, renewals and releases any processes run between two grants of one key,
-- at any times of their clocks, the later grant has a larger fencing generation.
pub try_acquire-later :
    (n k owner other : Str) (lease_ms now lease_ms' now' g g' : ℕ) (t u : Tables)
    → (try_acquire n k owner lease_ms now t).0 ≡ some g
    → Steps (try_acquire n k owner lease_ms now t).1 u
    → (try_acquire n k other lease_ms' now' u).0 ≡ some g'
    → g < g'
try_acquire-later n k owner other lease_ms now lease_ms' now' g g' t u p ss q =
    let (a, b) = try_acquire-some n k owner lease_ms now g t p in
    let c = Steps-last n k ss in
    let (d, e) = try_acquire-some n k other lease_ms' now' g' u q in omega arith
