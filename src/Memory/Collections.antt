-- ===== src/Memory/Collections.antt =====
-- `ensureCollection`, `put` and `remove` of `InMemoryStore`, by what a reader sees after them
-- (packages/store/src/backends/memory.ts).
use mirk.Common.{
  ◌≡◌, refl, ap, inl, inr, true, false, Option, none, some, [], arith, if◌then◌else◌, Option-cases,
  Bool-cases,
}
use mirk.Common.Result.{ok}
use mirk.Text.{Str, str_eq, is_empty}
use mirk.Text.Units.{str_eq_iff}
use mirk.Map
use mirk.Map.{Map}
use mirk.Map.Laws.{get-set, get-remove}
use mirk.Js.{Js, obj, Fields}
use mirk.Atomic.Shape.{item_id}
use mirk.Atomic.Target.{Target, key, record_of, target_key, same_target}
use mirk.Memory.State.{Store, stamp}
use mirk.Memory.Values.{put, remove, ensure_collection}
use mirk.Memory.View.{read, read_in}

module _ {N : Type 0} where
  abbrev or_empty : Option (Map (Js N)) → Map (Js N)
  or_empty none = []
  or_empty (some col) = col

  abbrev create : Str → Option (Map (Js N)) → Store N → Store N
  create c none s = record s { collections = Map.set c [] s.collections }
  create c (some col) s = s

  -- The state in which the collection is there.
  pub ensured : Str → Store N → Store N
  ensured c s = create c (Map.get c s.collections) s

  pub collection_of : Str → Store N → Map (Js N)
  collection_of c s = or_empty (Map.get c s.collections)

  pub ensure_collection_lem :
      (c : Str) (s : Store N)
      → is_empty c ≡ false
      → ensure_collection c s ≡ (ok (collection_of c s), ensured c s)
  unfolding ensure_collection collection_of ensured
  ensure_collection_lem c s h = elim (Option-cases (Map.get c s.collections)) [
    | inl e ↦ rw (h, e)
    | inr (col, e) ↦ rw (h, e)
  ]

  -- Making sure of a collection shows nothing.
  pub read-ensured : (c : Str) (t : Target) (s : Store N) → read t (ensured c s) ≡ read t s
  unfolding ensured read Map.get
  read-ensured c (key k) s = ground arith
  read-ensured c (record_of d i) s = elim (Option-cases (Map.get c s.collections)) [
    | inl e ↦ rw e (ground (arith, get-set c d [] s.collections, str_eq_iff c d))
    | inr (col, e) ↦ rw e
  ]

  get-ensured :
      (c d : Str) (col : Map (Js N)) (s : Store N)
      → Map.get d (Map.set c col (ensured c s).collections)
        ≡ (if str_eq c d then some col else Map.get d s.collections)
  unfolding ensured
  get-ensured c d col s = elim (Option-cases (Map.get c s.collections)) [
    | inl e ↦ rw e (simp get-set (ground arith))
    | inr (old, e) ↦ rw e (simp get-set)
  ]

  -- The fields that making sure of a collection leaves alone.
  pub ensured_rest :
      (c : Str) (s : Store N)
      → ((ensured c s).kv ≡ s.kv)
        × ((ensured c s).versions ≡ s.versions)
        × ((ensured c s).next_version_number ≡ s.next_version_number)
        × ((ensured c s).version_prefix ≡ s.version_prefix)
        × ((ensured c s).receipts ≡ s.receipts)
        × ((ensured c s).receipt_retention_ms ≡ s.receipt_retention_ms)
        × ((ensured c s).atomic_limits ≡ s.atomic_limits)
  unfolding ensured
  ensured_rest c s = ground arith

  -- A collection that is not there reads as an empty one.
  pub get-collection_of :
      (c i : Str) (s : Store N)
      → Map.get i (collection_of c s) ≡ read_in i (Map.get c s.collections)
  unfolding collection_of Map.get
  get-collection_of c i s = ground arith

  -- On a collection with a name `put` writes its one record, stamps it, and returns the item.
  pub put_lem :
      (c : Str) (item : Fields N) (s : Store N)
      → is_empty c ≡ false
      → put c item s ≡ (
        ok item,
        stamp (record_of c (item_id item)) (record (ensured c s) {
          collections =
              Map.set c
                (Map.set (item_id item) (obj item) (collection_of c s))
                (ensured c s).collections;
        }),
      )
  unfolding put
  put_lem c item s h = rw (ensure_collection_lem c s h, put)

  pub read-put :
      (c : Str) (item : Fields N) (t : Target) (s : Store N)
      → is_empty c ≡ false
      → read t (put c item s).1
        ≡ (if same_target (record_of c (item_id item)) t then some (obj item) else read t s)
  unfolding read stamp same_target
  read-put c item (key j) s h = rw (put_lem c item s h) (ap (Map.get j) (ensured_rest c s).0)
  read-put c item (record_of d i) s h = rw (put_lem c item s h) (
      rw get-ensured (
        ground (
          arith,
          str_eq_iff c d,
          get-set (item_id item) i (obj item) (collection_of c s),
          get-collection_of c i s,
        )))

  -- `remove` on a collection with a name: the record and its version go, if the record was there.
  pub remove_lem :
      (c i : Str) (s : Store N)
      → is_empty c ≡ false
      → remove c i s ≡ (
          if Map.has i (collection_of c s)
          then (
            ok true,
            record (ensured c s) {
              collections = Map.set c (Map.remove i (collection_of c s)) (ensured c s).collections;
              versions = Map.remove (target_key (record_of c i)) (ensured c s).versions;
            },
          )
          else (ok false, ensured c s))
  unfolding remove
  remove_lem c i s h = rw (ensure_collection_lem c s h, remove)

  -- The values that `remove` leaves, whether or not the record was there.
  read-without :
      (c i : Str) (t : Target) (vs : Map Str) (s : Store N)
      → read t (record (ensured c s) {
        collections = Map.set c (Map.remove i (collection_of c s)) (ensured c s).collections;
        versions = vs;
      })
        ≡ (if same_target (record_of c i) t then none else read t s)
  unfolding read same_target
  read-without c i (key j) vs s = ap (Map.get j) (ensured_rest c s).0
  read-without c i (record_of d j) vs s =
      rw get-ensured (
        ground (arith, str_eq_iff c d, get-remove i j (collection_of c s), get-collection_of c j s))

  read-absent :
      (c i : Str) (t : Target) (s : Store N)
      → Map.has i (collection_of c s) ≡ false
      → read t s ≡ (if same_target (record_of c i) t then none else read t s)
  unfolding read same_target collection_of Map.has Map.get
  read-absent c i (key j) s h = refl
  read-absent c i (record_of d j) s h = ground (arith, str_eq_iff c d, str_eq_iff i j)

  pub read-remove :
      (c i : Str) (t : Target) (s : Store N)
      → is_empty c ≡ false
      → read t (remove c i s).1 ≡ (if same_target (record_of c i) t then none else read t s)
  read-remove c i t s h = elim (Bool-cases (Map.has i (collection_of c s))) [
    | inl e ↦
        rw (remove_lem c i s h, e)
          (read-without c i t (Map.remove (target_key (record_of c i)) (ensured c s).versions) s)
    | inr e ↦ rw (remove_lem c i s h, e) (rw read-ensured (read-absent c i t s e))
  ]

  pub put-ok :
      (c : Str) (item : Fields N) (s : Store N) → is_empty c ≡ false → (put c item s).0 ≡ ok item
  put-ok c item s h = rw (put_lem c item s h)

  pub remove-ok :
      (c i : Str) (s : Store N)
      → is_empty c ≡ false
      → (remove c i s).0 ≡ ok (Map.has i (collection_of c s))
  remove-ok c i s h = elim (Bool-cases (Map.has i (collection_of c s))) [
    | inl e ↦ rw (remove_lem c i s h, e)
    | inr e ↦ rw (remove_lem c i s h, e)
  ]
