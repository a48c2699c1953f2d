-- ===== src/Namespace/Names.antt =====
-- Bound names are read back as they were, and those of two namespaces are different
-- (packages/store/src/namespace.ts).
use mathlib.Core.List.{append_assoc}
use mirk.Common.{
  ℕ, ◌≡◌, ◌≢◌, refl, sym, ap, ap₂, ◌∙◌, true, false, [], ◌∷◌, ◌++◌, length, drop, drop_append,
  arith, inl, inr, Bool-cases,
}
use mirk.Common.Result.{ok, >>=-eq-ok}
use mirk.Text.{Str}
use mirk.Text.Units.{str_eq_iff}
use mirk.Atomic.Shape.{Expected, missing, present, version, Condition}
use mirk.Atomic.Target.{Target, key, record_of, same_target}
use mirk.Memory.Values.{starts_with}
use mirk.Namespace.Binding.{
  separator, has_unit, assert_namespace, prefix, unbind_key, version_prefix, bind_target,
  unbind_target, bind_version, bind_expected, unbind_expected, bind_condition, unbind_condition,
}

pub unbind_key-prefix :
    (namespace value : Str) → unbind_key namespace (prefix namespace value) ≡ value
unfolding unbind_key prefix
unbind_key-prefix namespace value =
    ap (drop (length (namespace ++ separator ∷ [])))
      (sym (append_assoc namespace (separator ∷ []) value))
    ∙ drop_append (namespace ++ separator ∷ []) value

pub unbind_target-bind_target :
    (namespace : Str) (t : Target) → unbind_target namespace (bind_target namespace t) ≡ t
unfolding unbind_target bind_target
unbind_target-bind_target namespace (key k) = ap key (unbind_key-prefix namespace k)
unbind_target-bind_target namespace (record_of c i) =
    ap (λ d. record_of d i) (unbind_key-prefix namespace c)

starts_with-append : (p s : Str) → starts_with p s ≡ true → p ++ drop (length p) s ≡ s
unfolding starts_with
starts_with-append [] s h = refl
starts_with-append (u ∷ p) [] h = cc
starts_with-append (u ∷ p) (v ∷ s) h =
    let e : u ≡ v = ground arith in ap₂ (λ a b. a ∷ b) e (starts_with-append p s (ground arith))

unbind_expected-bind_expected :
    (namespace : Str) (e d : Expected)
    → bind_expected namespace e ≡ ok d
    → unbind_expected namespace d ≡ e
unfolding bind_expected unbind_expected bind_version
unbind_expected-bind_expected namespace missing d h = ground arith
unbind_expected-bind_expected namespace present d h = ground arith
unbind_expected-bind_expected namespace (version token) d h =
    elim (Bool-cases (starts_with (version_prefix namespace) token)) [
      | inl s ↦ ground (arith, starts_with-append (version_prefix namespace) token s)
      | inr s ↦ ground arith
    ]

-- A condition that can be bound to a namespace is unbound to itself.
pub unbind_condition-bind_condition :
    (namespace : Str) (c d : Condition)
    → bind_condition namespace c ≡ ok d
    → unbind_condition namespace d ≡ c
unfolding bind_condition unbind_condition
unbind_condition-bind_condition namespace c d h =
    let (e, p, q) = >>=-eq-ok (bind_expected namespace c.expected) _ h in
    let back = unbind_expected-bind_expected namespace c.expected e p in
    let there = unbind_target-bind_target namespace c.target in ground (arith, back, there)

-- Texts before the first of a unit are equal if the whole is.
before_unit :
    (u : ℕ) (a b x y : Str)
    → has_unit u a ≡ false
    → has_unit u b ≡ false
    → a ++ u ∷ x ≡ b ++ u ∷ y
    → (a ≡ b) × (x ≡ y)
unfolding has_unit
before_unit u [] [] x y p q e = (refl, cc)
before_unit u [] (w ∷ b) x y p q e = absurd (ground arith)
before_unit u (v ∷ a) [] x y p q e = absurd (ground arith)
before_unit u (v ∷ a) (w ∷ b) x y p q e =
    let same : v ≡ w = cc e in
    let (r, s) = before_unit u a b x y (ground arith) (ground arith) (cc e) in
    (ap₂ (λ i j. i ∷ j) same r, s)

pub prefix-injective :
    (a b x y : Str)
    → has_unit separator a ≡ false
    → has_unit separator b ≡ false
    → prefix a x ≡ prefix b y
    → (a ≡ b) × (x ≡ y)
unfolding prefix
prefix-injective a b x y p q e = before_unit separator a b x y p q e

-- What `assertNamespace` lets pass has no separator.
pub assert_namespace-ok :
    (namespace : Str) → assert_namespace namespace ≡ ok tt → has_unit separator namespace ≡ false
unfolding assert_namespace
assert_namespace-ok namespace h = ground arith

-- Targets of two namespaces are different.
pub bind_target-apart :
    (a b : Str) (t u : Target)
    → has_unit separator a ≡ false
    → has_unit separator b ≡ false
    → a ≢ b
    → same_target (bind_target a t) (bind_target b u) ≡ false
unfolding bind_target same_target
bind_target-apart a b (key k) (key j) p q ne =
    ground (arith, str_eq_iff (prefix a k) (prefix b j), prefix-injective a b k j p q)
bind_target-apart a b (key k) (record_of d j) p q ne = refl
bind_target-apart a b (record_of c i) (key j) p q ne = refl
bind_target-apart a b (record_of c i) (record_of d j) p q ne =
    ground (arith, str_eq_iff (prefix a c) (prefix b d), prefix-injective a b c d p q)

-- A version token of one namespace has not the prefix of another.
pub foreign_token :
    (a b token : Str)
    → has_unit 0 a ≡ false
    → has_unit 0 b ≡ false
    → a ≢ b
    → starts_with (version_prefix b) (bind_version a token) ≡ false
unfolding bind_version
foreign_token a b token p q ne =
    elim (Bool-cases (starts_with (version_prefix b) (bind_version a token))) [
      | inl h ↦
          let e = starts_with-append (version_prefix b) (bind_version a token) h in
          let r = drop (length (version_prefix b)) (bind_version a token) in
          let same =
            before_unit 0 b a r token q p
              (sym (append_assoc b (0 ∷ []) r) ∙ e ∙ append_assoc a (0 ∷ []) token) in
          absurd (ne (sym same.0))
      | inr h ↦ h
    ]
