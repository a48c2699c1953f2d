-- ===== src/Log/Rollback.antt =====
-- A transaction that fails leaves the log as it was (packages/store/src/log/memory.ts).
use mirk.Common.{
  ◌≡◌, refl, sym, subst, ap, ◌∙◌, inl, inr, Bool-cases, Option, none, some, List, [], ◌∷◌, ◌++◌,
  arith, length, take, take_append, Option-cases, if◌then◌else◌,
}
use mathlib.Core.List.{append_assoc, append-nil}
use mirk.Common.Result.{Result, ok, err}
use mirk.Text.{Str, str_eq}
use mirk.Text.Units.{str_eq_iff}
use mirk.Map
use mirk.Map.Laws.{get-set}
use mirk.Js.{Number, Js}
use mirk.Log.{
  Log, LogInputError, Ending, returned, promised, threw, TransactionError, async_work, work_error,
  entries_of, assert_stream, encode_record, store_record, append, rollback, transaction,
}

-- The error that an ending gives the caller, if it gives one.
abbrev pub error_of : {E A : Type 0} → Ending E A → Option (TransactionError E)
error_of (returned a) = none
error_of promised = some async_work
error_of (threw x) = some (work_error x)

module _ {N : Type 0} where
  -- The records of a stream that was there are a beginning of those it has now.
  abbrev Longer : Option (List (Js N)) → Option (List (Js N)) → Type 0
  Longer none new = Unit
  Longer (some old) new = (more : List (Js N)) × (new ≡ some (old ++ more))

  -- From `log` to `log'` streams only grew.
  abbrev pub Grown : Log N → Log N → Type 0
  Grown log log' = (k : Str) → Longer (Map.get k log) (Map.get k log')

  abbrev cut : Option (List (Js N)) → Option (List (Js N)) → Option (List (Js N))
  cut none new = none
  cut (some old) none = none
  cut (some old) (some new) = some (take (length old) new)

  get-rollback :
      (before after : Log N) (k : Str)
      → Map.get k (rollback before after) ≡ cut (Map.get k before) (Map.get k after)
  unfolding rollback Map.get
  get-rollback before [] k = ground arith
  get-rollback before ((j, es) ∷ after) k =
      ground (arith, str_eq_iff j k, get-rollback before after k)

  cut-Longer : (old new : Option (List (Js N))) → Longer old new → cut old new ≡ old
  cut-Longer none new h = refl
  cut-Longer (some old) new (more, e) = rw e (ap some (take_append old more))

  -- What was there before is there again, and nothing else.
  pub get-rollback-Grown :
      (before after : Log N)
      → Grown before after
      → (k : Str) → Map.get k (rollback before after) ≡ Map.get k before
  get-rollback-Grown before after h k =
      get-rollback before after k ∙ cut-Longer (Map.get k before) (Map.get k after) (h k)

  Longer-refl : (o : Option (List (Js N))) → Longer o o
  Longer-refl none = tt
  Longer-refl (some es) = ([], ap some (sym (append-nil es)))

  Longer-trans : (a b c : Option (List (Js N))) → Longer a b → Longer b c → Longer a c
  Longer-trans none b c p q = tt
  Longer-trans (some old) b c (more, e) q =
      let (most, f) = subst (λ o. Longer o c) e q in
      (more ++ most, f ∙ ap some (append_assoc old more most))

module _ {N : Type 0} ⦃numbers : Number N⦄ where
  set-Grown :
      (s : Str) (v : Js N) (log : Log N) → Grown log (Map.set s (entries_of s log ++ v ∷ []) log)
  unfolding entries_of
  set-Grown s v log k = elim (Bool-cases (str_eq s k)) [
    | inl same ↦ elim (Option-cases (Map.get k log)) [
      | inl e ↦ rw e tt
      | inr (es, e) ↦
          let p : Map.get s log ≡ some es = ap (λ x. Map.get x log) ((str_eq_iff s k).0 same) ∙ e in
          rw e (v ∷ [], rw get-set (rw (same, p, entries_of) refl))
    ]
    | inr other ↦
        subst (Longer (Map.get k log))
          (sym (
            get-set s k (entries_of s log ++ v ∷ []) log
            ∙ ap (λ b. if b then some (entries_of s log ++ v ∷ []) else Map.get k log) other))
          (Longer-refl (Map.get k log))
  ]

  accepted-Grown :
      (name : Result LogInputError Str) (checked : Result LogInputError (Js N)) (log : Log N)
      → Grown log (store_record name checked log).1
  unfolding store_record
  accepted-Grown (err e) checked log k = Longer-refl (Map.get k log)
  accepted-Grown (ok s) (err e) log k = Longer-refl (Map.get k log)
  accepted-Grown (ok s) (ok w) log k = set-Grown s w log k

  append-Grown : (stream v : Js N) (log : Log N) → Grown log (append stream v log).1
  unfolding append
  append-Grown stream v log k = accepted-Grown (assert_stream stream) (encode_record v) log k

  -- Any number of appends, with their refusals.
  pub append_all : List (Js N × Js N) → Log N → Log N
  append_all [] log = log
  append_all ((stream, v) ∷ ws) log = append_all ws (append stream v log).1

  append_all-Grown : (ws : List (Js N × Js N)) (log : Log N) → Grown log (append_all ws log)
  unfolding append_all
  append_all-Grown [] log k = Longer-refl (Map.get k log)
  append_all-Grown ((stream, v) ∷ ws) log k =
      Longer-trans (Map.get k log) (Map.get k (append stream v log).1)
        (Map.get k (append_all ws (append stream v log).1)) (append-Grown stream v log k)
        (append_all-Grown ws (append stream v log).1 k)

  -- A log transaction whose work appends any records and then throws or returns a promise fails,
  -- with the error of the work or with the one about promises, and afterwards every stream has
  -- the entries that it had before.
  pub transaction_appends :
      {E A : Type 0} (ending : Ending E A) (ws : List (Js N × Js N)) (log : Log N)
      (e : TransactionError E)
      → error_of ending ≡ some e
      → ((transaction (λ l. (ending, append_all ws l)) log).0 ≡ err e)
        × ((k : Str)
            → Map.get k (transaction (λ l. (ending, append_all ws l)) log).1 ≡ Map.get k log)
  unfolding transaction
  transaction_appends (returned a) ws log e h = absurd (ground (arith, h))
  transaction_appends promised ws log e h =
      (ground (arith, h), get-rollback-Grown log (append_all ws log) (append_all-Grown ws log))
  transaction_appends (threw x) ws log e h =
      (ground (arith, h), get-rollback-Grown log (append_all ws log) (append_all-Grown ws log))
