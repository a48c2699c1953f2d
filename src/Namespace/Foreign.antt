-- ===== src/Namespace/Foreign.antt =====
-- Version tokens of another namespace (packages/store/src/namespace.ts).
use mirk.Common.{ℕ, ◌≡◌, ◌≢◌, refl, ap, false, List, [], ◌∷◌, Member, inl, inr, arith}
use mirk.Common.Result.{ok, err, Result-cases}
use mirk.Text.{Str}
use mirk.Js.{Number, Js}
use mirk.Atomic.Shape.{Rejection, invalid_request, version, Condition, Validated}
use mirk.Atomic.Validate.{validate_atomic_request}
use mirk.Memory.State.{rejected}
use mirk.Namespace.Binding.{
  has_unit, bind_version, bind_expected, bind_condition, bind_conditions, bind_request,
}
use mirk.Namespace.Names.{foreign_token}
use mirk.Namespace.Store.{SyncAtomicMutationStore, namespaced_mutate}

-- A condition is refused for one reason only.
bind_condition-refused :
    (b : Str) (c : Condition) (e : Rejection) → bind_condition b c ≡ err e → e ≡ invalid_request
unfolding bind_condition bind_expected
bind_condition-refused b c e h = ground arith

bind_condition-foreign :
    (a b token : Str) (c : Condition)
    → has_unit 0 a ≡ false
    → has_unit 0 b ≡ false
    → a ≢ b
    → c.expected ≡ version (bind_version a token)
    → bind_condition b c ≡ err invalid_request
unfolding bind_condition bind_expected
bind_condition-foreign a b token c p q ne e = ground (arith, foreign_token a b token p q ne)

bind_conditions-foreign :
    (b : Str) (cs : List Condition) (c : Condition)
    → Member c cs
    → bind_condition b c ≡ err invalid_request
    → bind_conditions b cs ≡ err invalid_request
unfolding bind_conditions
bind_conditions-foreign b [] c m h = absurd m
bind_conditions-foreign b (d ∷ cs) c (inl e) h = ground (arith, ap (bind_condition b) e)
bind_conditions-foreign b (d ∷ cs) c (inr m) h = elim (Result-cases (bind_condition b d)) [
  | inl (x, g) ↦ ground (arith, bind_conditions-foreign b cs c m h)
  | inr (e, g) ↦ ground (arith, bind_condition-refused b d e g)
]

module _ {S N : Type 0} ⦃number : Number N⦄ where
  -- A valid request with a condition on a version token of another namespace is rejected as
  -- invalid by the handle, and the store below is untouched, if neither namespace has a NUL.
  pub namespaced_mutate-foreign :
      (a b token : Str) (store : SyncAtomicMutationStore S N) (request : Js N) (now : ℕ) (s : S)
      (v : Validated N) (c : Condition)
      → has_unit 0 a ≡ false
      → has_unit 0 b ≡ false
      → a ≢ b
      → validate_atomic_request request (store.atomic_limits s) ≡ ok v
      → Member c v.conditions
      → c.expected ≡ version (bind_version a token)
      → namespaced_mutate b store request now s ≡ (err (rejected invalid_request), s)
  unfolding namespaced_mutate bind_request
  namespaced_mutate-foreign a b token store request now s v c p q ne valid m e =
      let refused =
        bind_conditions-foreign b v.conditions c m (bind_condition-foreign a b token c p q ne e) in
      rw (valid, refused, namespaced_mutate, bind_request) refl
