-- ===== src/Memory/Operations.antt =====
-- Each operation of `InMemoryStore` is one update of its target
-- (packages/store/src/backends/memory.ts).
use mirk.Atomic.Target.Keys.{same_target_iff, target_key_eq}
use mirk.Common.{◌+◌, ◌≡◌, refl, ap, inl, inr, false, none, some, arith, Bool-cases, if◌then◌else◌}
use mirk.Text.{Str, is_empty}
use mirk.Map
use mirk.Map.{Map}
use mirk.Map.Laws.{get-remove}
use mirk.Js.{Js, obj, Fields}
use mirk.Atomic.Shape.{item_id}
use mirk.Atomic.Target.{Target, key, record_of, target_key, same_target}
use mirk.Memory.State.{Store, stamp, version_token}
use mirk.Memory.Values.{set, delete, put, remove}
use mirk.Memory.View.{read, version_at, version_at-stamp, read-set, read-delete}
use mirk.Memory.Collections.{
  ensured_rest, collection_of, get-collection_of, put_lem, remove_lem, read-put, read-remove,
}
use mirk.Memory.Update.{IsTracked, Update}

module _ {N : Type 0} where
  version_without :
      (t u : Target) (s : Store N)
      → Map.get (target_key u) (Map.remove (target_key t) s.versions)
        ≡ (if same_target t u then none else version_at u s)
  unfolding version_at
  version_without t u s = simp (get-remove, target_key_eq)

  -- A target with no value has no version to remove.
  version_absent :
      (t u : Target) (s : Store N)
      → IsTracked s
      → read t s ≡ none
      → version_at u s ≡ (if same_target t u then none else version_at u s)
  version_absent t u s inv h = ground (arith, same_target_iff t u, inv.tracked u)

  -- set gives the key's target the value and the next token, and changes no other target's value
  -- or version, no receipt and no setting.
  pub set-Update : (k : Str) (v : Js N) (s : Store N) → Update (key k) (some v) s (set k v s)
  unfolding set
  set-Update k v s = record {
    reads = λ u. unfold set in read-set k v u s;
    versions =
        λ u. unfold version_at in version_at-stamp (key k) u (record s { kv = Map.set k v s.kv });
    next = unfold stamp in refl;
    prefix = unfold stamp in refl;
    receipts = unfold stamp in refl;
    retention = unfold stamp in refl;
    limits = unfold stamp in refl;
  }

  version-delete :
      (k : Str) (u : Target) (s : Store N)
      → IsTracked s
      → version_at u (delete k s).1 ≡ (if same_target (key k) u then none else version_at u s)
  unfolding delete version_at read Map.has
  version-delete k u s inv =
      ground (arith, version_without (key k) u s, version_absent (key k) u s inv)

  -- delete on a tracked store takes the value and the version from the key's target, and changes
  -- no other target, no counter, no receipt and no setting.
  pub delete-Update : (k : Str) (s : Store N) → IsTracked s → Update (key k) none s (delete k s).1
  unfolding delete
  delete-Update k s inv = record {
    reads = λ u. read-delete k u s;
    versions = λ u. version-delete k u s inv;
    next = ground arith;
    prefix = ground arith;
    receipts = ground arith;
    retention = ground arith;
    limits = ground arith;
  }

  version-put :
      (c : Str) (item : Fields N) (u : Target) (s : Store N)
      → is_empty c ≡ false
      → version_at u (put c item s).1 ≡ (
          if same_target (record_of c (item_id item)) u
          then some (version_token s.version_prefix s.next_version_number)
          else version_at u s)
  unfolding version_at
  version-put c item u s h =
      rw (put_lem c item s h) (
        rw version_at-stamp (rw ((ensured_rest c s).1, (ensured_rest c s).2, (ensured_rest c s).3)))

  -- put into a named collection gives the record's target the item and the next token, and
  -- changes no other target's value or version, no receipt and no setting.
  pub put-Update :
      (c : Str) (item : Fields N) (s : Store N)
      → is_empty c ≡ false
      → Update (record_of c (item_id item)) (some (obj item)) s (put c item s).1
  unfolding stamp
  put-Update c item s h = record {
    reads = λ u. read-put c item u s h;
    versions = λ u. version-put c item u s h;
    next = rw (put_lem c item s h) (ap (λ n. n + 1) (ensured_rest c s).2);
    prefix = rw (put_lem c item s h) (ensured_rest c s).3;
    receipts = rw (put_lem c item s h) (ensured_rest c s).4;
    retention = rw (put_lem c item s h) (ensured_rest c s).5;
    limits = rw (put_lem c item s h) (ensured_rest c s).6;
  }

  version-remove :
      (c i : Str) (u : Target) (s : Store N)
      → is_empty c ≡ false
      → IsTracked s
      → version_at u (remove c i s).1
        ≡ (if same_target (record_of c i) u then none else version_at u s)
  unfolding version_at read Map.has
  version-remove c i u s h inv = elim (Bool-cases (Map.has i (collection_of c s))) [
    | inl e ↦
        rw (remove_lem c i s h, e) (rw (ensured_rest c s).1 (version_without (record_of c i) u s))
    | inr e ↦
        rw (remove_lem c i s h, e)
          (rw (ensured_rest c s).1
            (version_absent (record_of c i) u s inv (ground (arith, get-collection_of c i s))))
  ]

  -- remove in a named collection of a tracked store takes the value and the version from the
  -- record's target, and changes no other target, no counter, no receipt and no setting.
  pub remove-Update :
      (c i : Str) (s : Store N)
      → is_empty c ≡ false
      → IsTracked s
      → Update (record_of c i) none s (remove c i s).1
  remove-Update c i s h inv = record {
    reads = λ u. read-remove c i u s h;
    versions = λ u. version-remove c i u s h inv;
    next = rw (remove_lem c i s h) (ground (arith, ensured_rest c s));
    prefix = rw (remove_lem c i s h) (ground (arith, ensured_rest c s));
    receipts = rw (remove_lem c i s h) (ground (arith, ensured_rest c s));
    retention = rw (remove_lem c i s h) (ground (arith, ensured_rest c s));
    limits = rw (remove_lem c i s h) (ground (arith, ensured_rest c s));
  }
