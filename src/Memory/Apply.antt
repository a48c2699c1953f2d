-- ===== src/Memory/Apply.antt =====
-- The operations of an atomic request, one after the other
-- (packages/store/src/backends/memory.ts), against their effect on a plain map of values.
use mirk.Common.{◌≡◌, refl, sym, ap, true, Option, none, some, List, [], ◌∷◌, arith, if◌then◌else◌}
use mirk.Common.Result.{ok}
use mirk.Text.{Str, ascii}
use mirk.Js.{Js, Fields, obj, str, at}
use mirk.Canonical.{clone_json, clone_object}
use mirk.Canonical.Clone.{at-clone_object}
use mirk.Atomic.Shape.{Operation, operation_target, item_id, string_or_empty}
use mirk.Atomic.Target.{Target, record_of, same_target, is_named}
use mirk.Memory.State.{Store}
use mirk.Memory.Values.{set, delete, put, remove}
use mirk.Memory.Mutate.{apply_operation}
use mirk.Memory.View.{version_at}
use mirk.Memory.Collections.{put-ok, remove-ok}
use mirk.Memory.Update.{IsTracked, Update}
use mirk.Memory.Operations.{set-Update, delete-Update, put-Update, remove-Update}

module _ {N : Type 0} where
  -- The value that an operation leaves under its target.
  unfoldable pub new_value : Operation N → Option (Js N)
  new_value (Operation.set k v) = some (clone_json v)
  new_value (Operation.delete_key k) = none
  new_value (Operation.put c item) = some (obj (clone_object item))
  new_value (Operation.remove c i) = none

  -- The operations as writes to a function from targets to values, the last one first.
  unfoldable pub effects : List (Operation N) → (Target → Option (Js N)) → Target → Option (Js N)
  effects [] view t = view t
  effects (o ∷ os) view t =
      effects os (λ u. if same_target (operation_target o) u then new_value o else view u) t

  -- The state after one operation.
  pub after : Operation N → Store N → Store N
  after (Operation.set k v) s = set k (clone_json v) s
  after (Operation.delete_key k) s = (delete k s).1
  after (Operation.put c item) s = (put c (clone_object item) s).1
  after (Operation.remove c i) s = (remove c i s).1

  abbrev pub entry_version : Option (Js N) → Option Str → Option Str
  entry_version none v = none
  entry_version (some _) v = v

  -- The entry that is pushed for an operation, read in the state after it.
  unfoldable pub entry : Operation N → Store N → Target × Option Str
  entry o s = (operation_target o, entry_version (new_value o) (version_at (operation_target o) s))

  string_of_clone : (v : Js N) → string_or_empty (clone_json v) ≡ string_or_empty v
  unfolding clone_json
  string_of_clone (str u) = refl
  string_of_clone v = refl

  -- The stored clone has the id of the item.
  item_id-clone_object : (fs : Fields N) → item_id (clone_object fs) ≡ item_id fs
  unfolding item_id
  item_id-clone_object fs = rw at-clone_object (string_of_clone (at (ascii "id") fs))

  pub apply_operation_lem :
      (o : Operation N) (s : Store N)
      → is_named (operation_target o) ≡ true
      → apply_operation o s ≡ (ok (entry o (after o s)), after o s)
  unfolding apply_operation entry after new_value operation_target version_at is_named
  apply_operation_lem (Operation.set k v) s h = refl
  apply_operation_lem (Operation.delete_key k) s h = refl
  apply_operation_lem (Operation.put c item) s h =
      rw (put-ok c (clone_object item) s (ground arith))
  apply_operation_lem (Operation.remove c i) s h = rw (remove-ok c i s (ground arith))

  pub after-Update :
      (o : Operation N) (s : Store N)
      → is_named (operation_target o) ≡ true
      → IsTracked s
      → Update (operation_target o) (new_value o) s (after o s)
  unfolding after new_value operation_target is_named
  after-Update (Operation.set k v) s h inv = set-Update k (clone_json v) s
  after-Update (Operation.delete_key k) s h inv = delete-Update k s inv
  after-Update (Operation.put c item) s h inv =
      rw (ap (record_of c) (sym (item_id-clone_object item)))
        (put-Update c (clone_object item) s (ground arith))
  after-Update (Operation.remove c i) s h inv = remove-Update c i s (ground arith) inv
