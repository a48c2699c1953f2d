-- ===== src/Namespace/Store.antt =====
-- `namespaceStore` (packages/store/src/namespace.ts) over any store; `InMemoryStore` is one.
use mirk.Common.{ℕ, Bool, Option, none, some, List, [], map}
use mirk.Common.Result.{Result, ok, err}
use mirk.Text.{Str}
use mirk.Js.{Number, Js, Fields}
use mirk.Filter.{StoreFilter, Coercion}
use mirk.Atomic.Limits.{Limits}
use mirk.Atomic.Target.{Target}
use mirk.Memory.State
use mirk.Memory.State.{StoreError, rejected}
use mirk.Memory.Values
use mirk.Memory.Queries
use mirk.Memory.Mutate
use mirk.Memory.Mutate.{Versioned, MutationResult}
use mirk.Namespace.Binding.{
  NamespaceError, assert_namespace, prefix, unbind_key, bind_target, bind_versioned, bind_request,
  unbind_result,
}

-- A method on the state `S` of a store.
abbrev pub Method : Type 0 → Type 0 → Type 0
Method S A = S → Result StoreError A × S

-- `SyncAtomicMutationStore`; the time of the clock is an argument.
pub record SyncAtomicMutationStore (S N : Type 0) : Type 0 where
  pub atomic_limits : S → Limits
  pub get_versioned : Target → Method S (Option (Versioned N))
  pub mutate_atomically : Js N → ℕ → Method S (MutationResult N)

-- `SyncStore`, with the atomic methods where it has them.
pub record SyncStore (S N : Type 0) : Type 0 where
  pub get : Str → Method S (Js N)
  pub set : Str → Js N → Method S (Unit {0})
  pub has : Str → Method S Bool
  pub delete : Str → Method S Bool
  pub keys : Option Str → Method S (List Str)
  pub list : Str → Option (StoreFilter N) → Method S (List (Js N))
  pub get_by_id : Str → Str → Method S (Js N)
  pub put : Str → Fields N → Method S (Fields N)
  pub remove : Str → Str → Method S Bool
  pub count : Str → Option (StoreFilter N) → Method S ℕ
  pub atomic : Option (SyncAtomicMutationStore S N)

-- The value that a method returned, changed.
unfoldable pub then_pure :
    {S A B : Type 0} → (A → B) → Result StoreError A × S → Result StoreError B × S
then_pure f (ok a, s) = (ok (f a), s)
then_pure f (err e, s) = (err e, s)

abbrev pub or_blank : Option Str → Str
or_blank none = []
or_blank (some p) = p

module _ {S N : Type 0} ⦃number : Number N⦄ where
  unfoldable pub namespaced_mutate :
      Str → SyncAtomicMutationStore S N → Js N → ℕ → Method S (MutationResult N)
  unfolding bind_request then_pure unbind_result
  namespaced_mutate namespace store request now s =
      elim (bind_request namespace request (store.atomic_limits s)) [
        | err e ↦ (err (rejected e), s)
        | ok bound ↦ then_pure (unbind_result namespace) (store.mutate_atomically bound now s)
      ]

  unfoldable pub namespaced_atomic :
      Str → Option (SyncAtomicMutationStore S N) → Option (SyncAtomicMutationStore S N)
  unfolding namespaced_mutate then_pure bind_target bind_versioned
  namespaced_atomic namespace none = none
  namespaced_atomic namespace (some store) = some (record {
    atomic_limits = store.atomic_limits;
    get_versioned = λ t s.
        then_pure (bind_versioned namespace) (store.get_versioned (bind_target namespace t) s);
    mutate_atomically = namespaced_mutate namespace store;
  })

  -- The handle that is returned for a namespace that was accepted.
  unfoldable pub namespaced : Str → SyncStore S N → SyncStore S N
  unfolding prefix unbind_key then_pure namespaced_atomic
  namespaced namespace store = record {
    get = λ k. store.get (prefix namespace k);
    set = λ k v. store.set (prefix namespace k) v;
    has = λ k. store.has (prefix namespace k);
    delete = λ k. store.delete (prefix namespace k);
    keys = λ p s.
        then_pure (map (unbind_key namespace))
          (store.keys (some (prefix namespace (or_blank p))) s);
    list = λ name f. store.list (prefix namespace name) f;
    get_by_id = λ name id. store.get_by_id (prefix namespace name) id;
    put = λ name item. store.put (prefix namespace name) item;
    remove = λ name id. store.remove (prefix namespace name) id;
    count = λ name f. store.count (prefix namespace name) f;
    atomic = namespaced_atomic namespace store.atomic;
  }

  -- `namespaceStore(store, namespace)`
  unfoldable pub namespace_store : SyncStore S N → Str → Result NamespaceError (SyncStore S N)
  unfolding assert_namespace namespaced
  namespace_store store namespace = elim (assert_namespace namespace) [
    | err e ↦ err e
    | ok _ ↦ ok (namespaced namespace store)
  ]

module _ {N : Type 0} ⦃number : Number N⦄ where
  abbrev pub in_memory_atomic : SyncAtomicMutationStore (State.Store N) N
  in_memory_atomic = record {
    atomic_limits = λ s. s.atomic_limits;
    get_versioned = Mutate.get_versioned;
    mutate_atomically = Mutate.mutate_atomically;
  }

module _ {N : Type 0} ⦃number : Number N⦄ ⦃coercion : Coercion N⦄ where
  -- `InMemoryStore`
  abbrev pub in_memory : SyncStore (State.Store N) N
  in_memory = record {
    get = λ k s. (ok (Values.get k s), s);
    set = λ k v s. (ok tt, Values.set k v s);
    has = λ k s. (ok (Values.has k s), s);
    delete = λ k s. (ok (Values.delete k s).0, (Values.delete k s).1);
    keys = λ p s. (ok (Values.keys p s), s);
    list = Queries.list;
    get_by_id = Values.get_by_id;
    put = Values.put;
    remove = Values.remove;
    count = Queries.count;
    atomic = some in_memory_atomic;
  }
