-- ===== src/Memory/Holds.antt =====
-- What a condition asks of a store, said without the code that tests it
-- (packages/store/src/backends/memory.ts).
use mirk.Common.{
  ◌≡◌, ◌≢◌, ◌↔◌, refl, ap, ◌∙◌, inl, inr, true, Option, none, some, List, [], ◌∷◌, arith, All,
  Bool-cases,
}
use mirk.Common.Result.{ok}
use mirk.Text.{Str}
use mirk.Text.Units.{str_eq_iff}
use mirk.Js.{Js}
use mirk.Atomic.Shape.{Condition, Expected, missing, present, version}
use mirk.Atomic.Target.{is_named}
use mirk.Memory.State.{Store}
use mirk.Memory.Mutate.{check_conditions}
use mirk.Memory.View.{read, version_at}
use mirk.Memory.Update.{IsTracked, is_some}
use mirk.Memory.Conditions.{seen, seen_as, is_met, first_failure, check_conditions_lem}

module _ {N : Type 0} where
  -- By the value and the version of a target.
  abbrev pub HoldsAt : Expected → Option (Js N) → Option Str → Type 0
  HoldsAt missing o w = o ≡ none
  HoldsAt present o w = o ≢ none
  HoldsAt (version token) o w = w ≡ some token

  -- The target has no value, has one, or has the version that is named.
  abbrev pub Holds : Store N → Condition → Type 0
  Holds s c = HoldsAt c.expected (read c.target s) (version_at c.target s)

  is_met_iff :
      (e : Expected) (o : Option (Js N)) (w : Option Str)
      → is_some w ≡ is_some o
      → (is_met e (seen_as o w) ≡ true) ↔ HoldsAt e o w
  is_met_iff missing none w h = ground arith
  is_met_iff missing (some v) none h = cc
  is_met_iff missing (some v) (some t) h = ground arith
  is_met_iff present none w h = ground arith
  is_met_iff present (some v) none h = cc
  is_met_iff present (some v) (some t) h = ground arith
  is_met_iff (version token) none none h = ground arith
  is_met_iff (version token) none (some t) h = cc
  is_met_iff (version token) (some v) none h = cc
  is_met_iff (version token) (some v) (some t) h = ground (arith, str_eq_iff t token)

  first_failure-Holds :
      (cs : List Condition) (s : Store N)
      → IsTracked s
      → (first_failure cs (seen s) ≡ none) ↔ All (Holds s) cs
  unfolding first_failure seen
  first_failure-Holds [] s inv = (λ h. tt, λ h. refl)
  first_failure-Holds (c ∷ cs) s inv =
      let h =
        is_met_iff c.expected (read c.target s) (version_at c.target s) (inv.tracked c.target) in
      let rest = first_failure-Holds cs s inv in
      elim (Bool-cases (is_met c.expected (seen s c.target))) [
        | inl m ↦ rw m (λ e. (h.0 m, rest.0 e), λ p. rest.1 p.1)
        | inr m ↦ rw m (λ e. absurd (cc e), λ p. let q = h.1 p.0 in cc)
      ]

  -- The loop over named conditions on a tracked store finds no failure exactly when every
  -- condition holds: the target has no value, has a value, or has the version that is named.
  pub check_conditions-Holds :
      (cs : List Condition) (s : Store N)
      → All (λ c. is_named c.target ≡ true) cs
      → IsTracked s
      → ((check_conditions cs s).0 ≡ ok none) ↔ All (Holds s) cs
  check_conditions-Holds cs s named inv =
      let (s', e, w) = check_conditions_lem cs s named inv in
      let (to, from) = first_failure-Holds cs s inv in
      (λ h. to (cc h), λ h. ap (λ r. r.0) e ∙ ap ok (from h))
