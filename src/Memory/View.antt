-- ===== src/Memory/View.antt =====
-- What a reader of an `InMemoryStore` can see: the value and the version under each target
-- (packages/store/src/backends/memory.ts).
use mirk.Common.{◌≡◌, refl, Option, none, some, arith, if◌then◌else◌}
use mirk.Text.{Str}
use mirk.Text.Units.{str_eq_iff}
use mirk.Map
use mirk.Map.{Map}
use mirk.Map.Laws.{get-set, get-remove, map_laws}
use mirk.Js.{Js}
use mirk.Atomic.Target.{Target, key, record_of, target_key, same_target}
use mirk.Atomic.Target.Keys.{target_key_eq}
use mirk.Memory.State.{Store, stamp, version_token}
use mirk.Memory.Values.{set, delete}

module _ {N : Type 0} where
  abbrev pub read_in : Str → Option (Map (Js N)) → Option (Js N)
  read_in i none = none
  read_in i (some col) = Map.get i col

  -- The value under a target.
  unfoldable pub read : Target → Store N → Option (Js N)
  read (key k) s = Map.get k s.kv
  read (record_of c i) s = read_in i (Map.get c s.collections)

  -- The version under a target.
  unfoldable pub version_at : Target → Store N → Option Str
  version_at t s = Map.get (target_key t) s.versions

  -- A write gives its target the next token, and leaves the other versions.
  pub version_at-stamp :
      (t u : Target) (s : Store N)
      → version_at u (stamp t s) ≡ (
          if same_target t u
          then some (version_token s.version_prefix s.next_version_number)
          else version_at u s)
  unfolding version_at stamp
  version_at-stamp t u s = simp (get-set, target_key_eq)

  pub read-set :
      (k : Str) (v : Js N) (t : Target) (s : Store N)
      → read t (set k v s) ≡ (if same_target (key k) t then some v else read t s)
  unfolding read set stamp same_target
  read-set k v (key j) s = simp map_laws
  read-set k v (record_of c i) s = refl

  pub read-delete :
      (k : Str) (t : Target) (s : Store N)
      → read t (delete k s).1 ≡ (if same_target (key k) t then none else read t s)
  unfolding read delete same_target Map.has
  read-delete k (key j) s = ground (arith, get-remove k j s.kv, str_eq_iff k j)
  read-delete k (record_of c i) s = ground arith
