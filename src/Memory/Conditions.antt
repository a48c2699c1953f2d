-- ===== src/Memory/Conditions.antt =====
-- Reading a versioned value, and the loop over the conditions of an atomic request
-- (packages/store/src/backends/memory.ts).
use mathlib.Core.Path.{fun_ext}
use mirk.Common.{
  ◌≡◌, refl, ap, ◌∙◌, inl, inr, Bool, true, false, not, Option, none, some, List, [], ◌∷◌, arith,
  All, if◌then◌else◌, Option-cases, Bool-cases,
}
use mirk.Common.Result.{ok}
use mirk.Text.{Str, str_eq}
use mirk.Map
use mirk.Map.{Map}
use mirk.Js.{Js}
use mirk.Atomic.Shape.{Condition, Expected, missing, present, version}
use mirk.Atomic.Target.{Target, key, record_of, target_key, is_named}
use mirk.Memory.State.{Store}
use mirk.Memory.Mutate.{
  Versioned, MutationResult, conflict, lookup_target, versioned, get_versioned, condition_matches,
  observed_as, check_conditions,
}
use mirk.Memory.View.{read, version_at}
use mirk.Memory.Collections.{
  ensured, ensured_rest, read-ensured, ensure_collection_lem, get-collection_of,
}
use mirk.Memory.Update.{IsTracked, is_some}

-- No condition is about a record of a collection without a name.
abbrev pub NamedConditions : List Condition → Type 0
NamedConditions = All (λ c. is_named c.target ≡ true)

module _ {N : Type 0} where
  -- The stores differ at most in collections that hold nothing.
  pub record SameView (s s' : Store N) : Type 0 where
    pub reads : (t : Target) → read t s' ≡ read t s
    pub versions : s'.versions ≡ s.versions
    pub next : s'.next_version_number ≡ s.next_version_number
    pub prefix : s'.version_prefix ≡ s.version_prefix
    pub receipts : s'.receipts ≡ s.receipts
    pub retention : s'.receipt_retention_ms ≡ s.receipt_retention_ms
    pub limits : s'.atomic_limits ≡ s.atomic_limits

  pub SameView-refl : (s : Store N) → SameView s s
  SameView-refl s = record {
    reads = λ t. refl;
    versions = refl;
    next = refl;
    prefix = refl;
    receipts = refl;
    retention = refl;
    limits = refl;
  }

  pub SameView-trans : {s t u : Store N} → SameView s t → SameView t u → SameView s u
  SameView-trans a b = record {
    reads = λ x. b.reads x ∙ a.reads x;
    versions = b.versions ∙ a.versions;
    next = b.next ∙ a.next;
    prefix = b.prefix ∙ a.prefix;
    receipts = b.receipts ∙ a.receipts;
    retention = b.retention ∙ a.retention;
    limits = b.limits ∙ a.limits;
  }

  pub version_at-SameView :
      {s s' : Store N} → SameView s s' → (t : Target) → version_at t s' ≡ version_at t s
  unfolding version_at
  version_at-SameView v t = ap (Map.get (target_key t)) v.versions

  pub SameView-IsTracked : {s s' : Store N} → SameView s s' → IsTracked s → IsTracked s'
  SameView-IsTracked {s} {s'} v inv = record {
    tracked = λ t. rw (version_at-SameView v t, v.reads t) (inv.tracked t);
    fresh = λ t n h e.
        inv.fresh t n (ground (arith, v.next)) (rw (version_at-SameView v t, v.prefix) at e);
    distinct = λ t u w p q.
        inv.distinct t u w (rw (version_at-SameView v t) at p) (rw (version_at-SameView v u) at q);
  }

  pub SameView-ensured : (c : Str) (s : Store N) → SameView s (ensured c s)
  SameView-ensured c s = record {
    reads = λ t. read-ensured c t s;
    versions = (ensured_rest c s).1;
    next = (ensured_rest c s).2;
    prefix = (ensured_rest c s).3;
    receipts = (ensured_rest c s).4;
    retention = (ensured_rest c s).5;
    limits = (ensured_rest c s).6;
  }

  -- The state after a target was looked up.
  pub prepared : Target → Store N → Store N
  prepared (key k) s = s
  prepared (record_of c i) s = ensured c s

  pub SameView-prepared : (t : Target) (s : Store N) → SameView s (prepared t s)
  unfolding prepared
  SameView-prepared (key k) s = SameView-refl s
  SameView-prepared (record_of c i) s = SameView-ensured c s

  abbrev pub seen_as : Option (Js N) → Option Str → Option (Versioned N)
  seen_as none w = none
  seen_as (some v) none = none
  seen_as (some v) (some w) = some (record { value = v; version = w })

  -- What a tracked store shows of a target: its value with its version.
  unfoldable pub seen : Store N → Target → Option (Versioned N)
  seen s t = seen_as (read t s) (version_at t s)

  lookup_target_lem :
      (t : Target) (s : Store N)
      → is_named t ≡ true
      → lookup_target t s ≡ (ok (read t s), prepared t s)
  unfolding lookup_target read prepared is_named
  lookup_target_lem (key k) s h = refl
  lookup_target_lem (record_of c i) s h =
      rw (ensure_collection_lem c s (ground arith))
        (ap (λ o. (ok o, ensured c s)) (get-collection_of c i s))

  versioned_lem :
      (t : Target) (v : Js N) (w : Str) (s : Store N)
      → version_at t s ≡ some w
      → versioned t v s ≡ (ok (some (record { value = v; version = w })), s)
  unfolding versioned version_at
  versioned_lem t v w s e = rw (e, versioned)

  -- getVersioned of a named target on a tracked store answers with the value and version of the
  -- target, or nothing where it has no value, and leaves the store as it was but for an empty
  -- collection that it may create.
  pub get_versioned_lem :
      (t : Target) (s : Store N)
      → is_named t ≡ true
      → IsTracked s
      → get_versioned t s ≡ (ok (seen s t), prepared t s)
  unfolding get_versioned seen
  get_versioned_lem t s h inv = elim (Option-cases (read t s)) [
    | inl e ↦ rw (lookup_target_lem t s h, get_versioned) (rw e)
    | inr (v, e) ↦ elim (Option-cases (version_at t s)) [
      | inl f ↦ absurd (ground (arith, inv.tracked t))
      | inr (w, f) ↦
          rw (lookup_target_lem t s h, get_versioned)
            (rw (e, f)
              (versioned_lem t v w (prepared t s)
                (version_at-SameView (SameView-prepared t s) t ∙ f)))
    ]
  ]

  -- What a condition asks of what is seen of its target.
  abbrev pub is_met : Expected → Option (Versioned N) → Bool
  is_met missing o = not (is_some o)
  is_met present o = is_some o
  is_met (version token) none = false
  is_met (version token) (some v) = str_eq v.version token

  -- What a conflict tells of it: no value, the version if the condition names one, or a value.
  abbrev pub told : Expected → Option (Versioned N) → Expected
  told e none = missing
  told missing (some v) = present
  told present (some v) = present
  told (version token) (some v) = version v.version

  condition_matches-is_met :
      (e : Expected) (o : Option (Versioned N)) → condition_matches e o ≡ is_met e o
  unfolding condition_matches
  condition_matches-is_met missing none = refl
  condition_matches-is_met missing (some v) = refl
  condition_matches-is_met present none = refl
  condition_matches-is_met present (some v) = refl
  condition_matches-is_met (version token) none = refl
  condition_matches-is_met (version token) (some v) = refl

  observed_as-told : (e : Expected) (o : Option (Versioned N)) → observed_as e o ≡ told e o
  unfolding observed_as
  observed_as-told missing none = refl
  observed_as-told missing (some v) = refl
  observed_as-told present none = refl
  observed_as-told present (some v) = refl
  observed_as-told (version token) none = refl
  observed_as-told (version token) (some v) = refl

  -- The first condition that what is seen does not meet, as the conflict that it is.
  unfoldable pub first_failure :
      List Condition → (Target → Option (Versioned N)) → Option (MutationResult N)
  first_failure [] view = none
  first_failure (c ∷ cs) view =
      if is_met c.expected (view c.target)
      then first_failure cs view
      else some (conflict c (told c.expected (view c.target)))

  pub seen-SameView : {s s' : Store N} → SameView s s' → seen s' ≡ seen s
  unfolding seen
  seen-SameView v = fun_ext (λ t. rw (v.reads t, version_at-SameView v t))

  -- The loop over named conditions on a tracked store answers with the first failure against the
  -- state before the loop, and leaves every value, version, receipt and setting and the counter
  -- as they were.
  pub check_conditions_lem :
      (cs : List Condition) (s : Store N)
      → NamedConditions cs
      → IsTracked s
      → (s' : Store N) × (check_conditions cs s ≡ (ok (first_failure cs (seen s)), s'))
        × SameView s s'
  unfolding check_conditions first_failure
  check_conditions_lem [] s h inv = (s, refl, SameView-refl s)
  check_conditions_lem (c ∷ cs) s h inv =
      let v = SameView-prepared c.target s in
      let (s', e, w) =
        check_conditions_lem cs (prepared c.target s) h.1 (SameView-IsTracked v inv) in
      let tested = condition_matches-is_met c.expected (seen s c.target) in
      let shown = observed_as-told c.expected (seen s c.target) in
      elim (Bool-cases (is_met c.expected (seen s c.target))) [
        | inl m ↦ (
          s',
          rw (get_versioned_lem c.target s h.0 inv, check_conditions)
              (rw (tested, m)
                (e ∙ ap (λ view. (ok (first_failure cs view), s')) (seen-SameView v))),
          SameView-trans v w,
        )
        | inr m ↦ (
          prepared c.target s,
          rw (get_versioned_lem c.target s h.0 inv, check_conditions) (rw (tested, m, shown) refl),
          v,
        )
      ]
