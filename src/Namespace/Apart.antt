-- ===== src/Namespace/Apart.antt =====
-- Sequences of calls through a namespaced handle, as another namespace sees them
-- (packages/store/src/namespace.ts).
use mirk.Common.{ℕ, ◌≡◌, ◌≢◌, refl, true, false, Option, none, some, List, [], ◌∷◌, arith}
use mirk.Common.Result.{ok}
use mirk.Text.{Str, is_empty}
use mirk.Js.{Number, Js, Fields}
use mirk.Filter.{StoreFilter, Coercion}
use mirk.Atomic.Target.{Target, key, record_of, same_target, is_named}
use mirk.Atomic.Shape.{item_id}
use mirk.Memory.State.{Store}
use mirk.Memory.View.{read, version_at}
use mirk.Memory.Update.{IsTracked, Update, Update-IsTracked}
use mirk.Memory.Operations.{set-Update, delete-Update, put-Update, remove-Update}
use mirk.Memory.Conditions.{
  SameView, SameView-IsTracked, SameView-ensured, SameView-prepared, version_at-SameView,
  get_versioned_lem,
}
use mirk.Memory.Looks.{get_by_id-state, count-state, list-state}
use mirk.Namespace.Binding.{separator, has_unit, assert_namespace, prefix, bind_target}
use mirk.Namespace.Names.{assert_namespace-ok, bind_target-apart}
use mirk.Namespace.Store.{SyncStore, in_memory, namespaced, namespaced_atomic, namespace_store}
use mirk.Namespace.Isolation.{
  Kept, Kept-refl, Kept-trans, Update-Kept, mutate-Kept, then_pure-state,
}

-- A call of a method that may change the store.
pub data Call (N : Type 0) : Type 0 where
  set_call : Str → Js N → Call N
  delete_call : Str → Call N
  put_call : Str → Fields N → Call N
  remove_call get_by_id_call : Str → Str → Call N
  list_call count_call : Str → Option (StoreFilter N) → Call N
  get_versioned_call : Target → Call N
  mutate_call : Js N → ℕ → Call N

module _ {S N : Type 0} where
  -- The state after the call.
  abbrev pub run_call : SyncStore S N → Call N → S → S
  run_call store (set_call k v) s = (store.set k v s).1
  run_call store (delete_call k) s = (store.delete k s).1
  run_call store (put_call c item) s = (store.put c item s).1
  run_call store (remove_call c i) s = (store.remove c i s).1
  run_call store (get_by_id_call c i) s = (store.get_by_id c i s).1
  run_call store (list_call c f) s = (store.list c f s).1
  run_call store (count_call c f) s = (store.count c f s).1
  run_call store (get_versioned_call t) s = elim store.atomic [
    | none ↦ s
    | some atomic ↦ (atomic.get_versioned t s).1
  ]
  run_call store (mutate_call request now) s = elim store.atomic [
    | none ↦ s
    | some atomic ↦ (atomic.mutate_atomically request now s).1
  ]

  abbrev pub run_calls : SyncStore S N → List (Call N) → S → S
  run_calls store [] s = s
  run_calls store (c ∷ cs) s = run_calls store cs (run_call store c s)

prefix-named : (a x : Str) → is_empty (prefix a x) ≡ false
unfolding prefix
prefix-named [] x = refl
prefix-named (u ∷ a) x = refl

bind_target-named : (a : Str) (t : Target) → is_named (bind_target a t) ≡ true
unfolding bind_target is_named
bind_target-named a (key k) = refl
bind_target-named a (record_of c i) = ground (arith, prefix-named a c)

module _ {N : Type 0} ⦃number : Number N⦄ ⦃coercion : Coercion N⦄ where
  -- The store is tracked after the change, and the target is as it was.
  abbrev Stays : Target → Store N → Store N → Type 0
  Stays t s s' = IsTracked s' × Kept t s s'

  SameView-Stays : {s s' : Store N} (t : Target) → IsTracked s → SameView s s' → Stays t s s'
  SameView-Stays t inv v =
      (SameView-IsTracked v inv, record { value = v.reads t; version = version_at-SameView v t })

  Update-Stays :
      {t u : Target} {v : Option (Js N)} {s s' : Store N}
      → IsTracked s
      → Update t v s s'
      → same_target t u ≡ false
      → Stays u s s'
  Update-Stays {u = u} inv up h = (Update-IsTracked up inv, Update-Kept u up h)

  call-Stays :
      (a b : Str) (t : Target) (call : Call N) (s : Store N)
      → has_unit separator a ≡ false
      → has_unit separator b ≡ false
      → a ≢ b
      → IsTracked s
      → Stays (bind_target b t) s (run_call (namespaced a in_memory) call s)
  unfolding namespaced namespaced_atomic bind_target
  call-Stays a b t (set_call k v) s p q ne inv =
      Update-Stays inv (set-Update (prefix a k) v s) (bind_target-apart a b (key k) t p q ne)
  call-Stays a b t (delete_call k) s p q ne inv =
      Update-Stays inv (delete-Update (prefix a k) s inv) (bind_target-apart a b (key k) t p q ne)
  call-Stays a b t (put_call c item) s p q ne inv =
      Update-Stays inv (put-Update (prefix a c) item s (prefix-named a c))
        (bind_target-apart a b (record_of c (item_id item)) t p q ne)
  call-Stays a b t (remove_call c i) s p q ne inv =
      Update-Stays inv (remove-Update (prefix a c) i s (prefix-named a c) inv)
        (bind_target-apart a b (record_of c i) t p q ne)
  call-Stays a b t (get_by_id_call c i) s p q ne inv =
      rw (get_by_id-state (prefix a c) i s (prefix-named a c))
        (SameView-Stays (bind_target b t) inv (SameView-ensured (prefix a c) s))
  call-Stays a b t (list_call c f) s p q ne inv =
      rw (list-state (prefix a c) f s (prefix-named a c))
        (SameView-Stays (bind_target b t) inv (SameView-ensured (prefix a c) s))
  call-Stays a b t (count_call c f) s p q ne inv =
      rw (count-state (prefix a c) f s (prefix-named a c))
        (SameView-Stays (bind_target b t) inv (SameView-ensured (prefix a c) s))
  call-Stays a b t (get_versioned_call u) s p q ne inv =
      rw (then_pure-state, get_versioned_lem (bind_target a u) s (bind_target-named a u) inv)
        (SameView-Stays (bind_target b t) inv (SameView-prepared (bind_target a u) s))
  call-Stays a b t (mutate_call request now) s p q ne inv =
      mutate-Kept a b t request now s p q ne inv

  calls-Stays :
      (a b : Str) (t : Target) (calls : List (Call N)) (s : Store N)
      → has_unit separator a ≡ false
      → has_unit separator b ≡ false
      → a ≢ b
      → IsTracked s
      → Stays (bind_target b t) s (run_calls (namespaced a in_memory) calls s)
  calls-Stays a b t [] s p q ne inv = (inv, Kept-refl (bind_target b t) s)
  calls-Stays a b t (c ∷ cs) s p q ne inv =
      let (inv', kept) = call-Stays a b t c s p q ne inv in
      let (inv'', kept') =
        calls-Stays a b t cs (run_call (namespaced a in_memory) c s) p q ne inv' in
      (inv'', Kept-trans kept kept')

  handle_of :
      (a : Str) (handle : SyncStore (Store N) N)
      → namespace_store in_memory a ≡ ok handle
      → (has_unit separator a ≡ false) × (namespaced a in_memory ≡ handle)
  unfolding namespace_store assert_namespace
  handle_of a handle h = ground arith

  -- Whatever calls are made through the handle of one namespace over a tracked in-memory store,
  -- atomic mutations included, every target of another namespace that is valid keeps its value
  -- and its version.
  pub namespace_store-isolated :
      (a b : Str) (handle : SyncStore (Store N) N) (calls : List (Call N)) (s : Store N)
      (t : Target)
      → namespace_store in_memory a ≡ ok handle
      → assert_namespace b ≡ ok tt
      → a ≢ b
      → IsTracked s
      → (read (bind_target b t) (run_calls handle calls s) ≡ read (bind_target b t) s)
        × (version_at (bind_target b t) (run_calls handle calls s) ≡ version_at (bind_target b t) s)
  namespace_store-isolated a b handle calls s t h valid ne inv =
      let (p, same) = handle_of a handle h in
      let (inv', kept) = calls-Stays a b t calls s p (assert_namespace-ok b valid) ne inv in
      rw (← same) (kept.value, kept.version)
