-- ===== src/Memory/Values.antt =====
-- The methods of `InMemoryStore` on keys and collections (packages/store/src/backends/memory.ts).
use mirk.Common.{
  Bool, true, false, ◌&&◌, Option, none, some, List, [], ◌∷◌, filter, if◌then◌else◌, ◌==◌,
}
use mirk.Common.Result.{ok, err}
use mirk.Text.{Str, compare_code_points, is_empty}
use mirk.Map
use mirk.Map.{Map}
use mirk.Sort.{sort}
use mirk.Js.{Js, undefined, null, obj, Fields}
use mirk.Atomic.Shape.{item_id}
use mirk.Atomic.Target.{key, record_of, target_key}
use mirk.Memory.State.{Store, Act, invalid_collection_name, pure, continue, ◌>>=◌, stamp}

-- `key.startsWith(prefix)`
unfoldable pub starts_with : Str → Str → Bool
starts_with [] k = true
starts_with (p ∷ ps) [] = false
starts_with (p ∷ ps) (u ∷ k) = p == u && starts_with ps k

module _ {N : Type 0} where
  -- `value !== undefined ? value : null` at the answer of a `Map`
  unfoldable pub or_null : Option (Js N) → Js N
  or_null none = null
  or_null (some undefined) = null
  or_null (some v) = v

  unfoldable pub get : Str → Store N → Js N
  unfolding or_null
  get k s = or_null (Map.get k s.kv)

  unfoldable pub set : Str → Js N → Store N → Store N
  set k v s = stamp (key k) (record s { kv = Map.set k v s.kv })

  unfoldable pub has : Str → Store N → Bool
  has k s = Map.has k s.kv

  -- The version goes only if the key was there.
  unfoldable pub delete : Str → Store N → Bool × Store N
  delete k s =
      if Map.has k s.kv
      then (
        true,
        record s { kv = Map.remove k s.kv; versions = Map.remove (target_key (key k)) s.versions },
      )
      else (false, s)

  -- An empty prefix is no prefix.
  unfoldable pub keys : Option Str → Store N → List Str
  unfolding starts_with
  keys none s = sort compare_code_points (Map.keys s.kv)
  keys (some prefix) s = sort compare_code_points (
      if is_empty prefix then Map.keys s.kv else filter (λ k. starts_with prefix k) (Map.keys s.kv))

  unfoldable pub ensure_collection : Str → Act N (Map (Js N))
  ensure_collection name s =
      if is_empty name
      then (err invalid_collection_name, s)
      else elim (Map.get name s.collections) [
        | none ↦ (ok [], record s { collections = Map.set name [] s.collections })
        | some col ↦ (ok col, s)
      ]

  -- `collections.get(name)` is changed in place: the map under the name is replaced.
  unfoldable pub store_collection : Str → Map (Js N) → Store N → Store N
  store_collection name col s = record s { collections = Map.set name col s.collections }

  unfoldable pub get_by_id : Str → Str → Act N (Js N)
  unfolding ensure_collection or_null continue
  get_by_id collection id = do col ← ensure_collection collection; pure (or_null (Map.get id col))

  unfoldable pub put : Str → Fields N → Act N (Fields N)
  unfolding ensure_collection store_collection continue
  put collection item = do
    col ← ensure_collection collection
    λ s. (
      ok item,
      stamp (record_of collection (item_id item))
          (store_collection collection (Map.set (item_id item) (obj item) col) s),
    )

  unfoldable pub remove : Str → Str → Act N Bool
  unfolding ensure_collection store_collection continue
  remove collection id = do
    col ← ensure_collection collection
    λ s.
        if Map.has id col
        then (
          ok true,
          record (store_collection collection (Map.remove id col) s) {
            versions = Map.remove (target_key (record_of collection id)) s.versions;
          },
        )
        else (ok false, s)
