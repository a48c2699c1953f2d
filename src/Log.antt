-- ===== src/Log.antt =====
-- `InMemoryLogStore` (packages/store/src/log/memory.ts) with the checks of its arguments
-- (packages/store/src/log/validate.ts). A record is kept as the value that its text parses to.
pub mod Appends
pub mod Rollback
use mirk.Common.{
  ℕ, zero, suc, ◌+◌, ◌-◌, Option, none, some, List, [], ◌∷◌, ◌++◌, min, length, get_elem?, take,
  drop, ltb, if◌then◌else◌,
}
use mirk.Common.Result.{Result, ok, err, ◌>>=◌, ◌>>◌}
use mirk.Text.{Str, is_empty}
use mirk.Map
use mirk.Map.{Map}
use mirk.Js.{Number, Js, str}
use mirk.Canonical.{CanonicalError, canonical_json}
use mirk.Atomic.Limits.{Given, natural, max_safe_integer}

pub data LogInputError : Type 0 where
  invalid_stream invalid_sequence invalid_after invalid_limit : LogInputError
  invalid_record : CanonicalError → LogInputError

pub record LogEntry (N : Type 0) : Type 0 where
  pub sequence : ℕ
  pub value : Js N

-- `LogListOptions`
pub record ListOptions : Type 0 where
  pub after : Option Given
  pub limit : Option Given

pub record Bounds : Type 0 where
  pub after : ℕ
  pub limit : Option ℕ

abbrev pub Log : Type 0 → Type 0
Log N = Map (List (Js N))

-- `assertStream(stream)`
unfoldable pub assert_stream : {N : Type 0} → Js N → Result LogInputError Str
assert_stream (str s) = if is_empty s then err invalid_stream else ok s
assert_stream _ = err invalid_stream

-- A safe integer that is not negative.
abbrev pub safe_natural : Given → Option ℕ
safe_natural (natural n) = if ltb max_safe_integer n then none else some n
safe_natural _ = none

-- `assertSequence(sequence)`
unfoldable pub assert_sequence : Given → Result LogInputError ℕ
assert_sequence g = elim (safe_natural g) [
  | none ↦ err invalid_sequence
  | some n ↦ if ltb n 1 then err invalid_sequence else ok n
]

abbrev pub or_throw : {A : Type 0} → LogInputError → Option A → Result LogInputError A
or_throw e none = err e
or_throw e (some a) = ok a

abbrev pub given_after : Option Given → Result LogInputError ℕ
given_after none = ok 0
given_after (some g) = or_throw invalid_after (safe_natural g)

abbrev pub given_limit : Option Given → Result LogInputError (Option ℕ)
given_limit none = ok none
given_limit (some g) = do n ← or_throw invalid_limit (safe_natural g); ok (some n)

-- `listBounds(options)`
unfoldable pub list_bounds : Option ListOptions → Result LogInputError Bounds
list_bounds none = ok (record { after = 0; limit = none })
list_bounds (some o) = do
  after ← given_after o.after
  limit ← given_limit o.limit
  ok (record { after = after; limit = limit })

abbrev pub window : Option ℕ → ℕ → ℕ → ℕ
window none after size = size - after
window (some limit) after size = min size (after + limit) - after

-- What ends the work of a transaction: a value, a promise, or an error.
pub data Ending (E A : Type 0) : Type 0 where
  returned : A → Ending E A
  promised : Ending E A
  threw : E → Ending E A

pub data TransactionError (E : Type 0) : Type 0 where
  async_work : TransactionError E
  work_error : E → TransactionError E

module _ {N : Type 0} where
  -- `this.#streams.get(stream) ?? []`
  unfoldable pub entries_of : Str → Log N → List (Js N)
  entries_of stream log = elim (Map.get stream log) [ none ↦ [] | some es ↦ es ]

  -- The loop of `list` from `index` up to the end that `left` more entries reach.
  unfoldable pub numbered : ℕ → ℕ → List (Js N) → List (LogEntry N)
  numbered zero index es = []
  numbered (suc left) index [] = []
  numbered (suc left) index (v ∷ es) =
      record { sequence = index + 1; value = v } ∷ numbered left (index + 1) es

  -- `get(stream, sequence)`
  unfoldable pub get : Js N → Given → Log N → Result LogInputError (Option (LogEntry N))
  unfolding entries_of
  get stream sequence log = do
    name ← assert_stream stream
    n ← assert_sequence sequence
    ok (elim (get_elem? (entries_of name log) (n - 1)) [
      | none ↦ none
      | some v ↦ some (record { sequence = n; value = v })
    ])

  -- `list(stream, options)`
  unfoldable pub list : Js N → Option ListOptions → Log N → Result LogInputError (List (LogEntry N))
  unfolding entries_of numbered
  list stream options log = do
    name ← assert_stream stream
    bounds ← list_bounds options
    let es = entries_of name log
    ok (numbered (window bounds.limit bounds.after (length es)) bounds.after (drop bounds.after es))

  -- `lastSequence(stream)`
  unfoldable pub last_sequence : Js N → Log N → Result LogInputError ℕ
  unfolding entries_of
  last_sequence stream log = do name ← assert_stream stream; ok (length (entries_of name log))

  -- `catch`: a stream that was not there goes, and any other is cut to its old length.
  unfoldable pub rollback : Log N → Log N → Log N
  rollback before [] = []
  rollback before ((k, es) ∷ after) =
      let rest = rollback before after in
      elim (Map.get k before) [ none ↦ rest | some old ↦ (k, take (length old) es) ∷ rest ]

  -- `transaction(work)`
  unfoldable pub transaction :
      {E A : Type 0} → (Log N → Ending E A × Log N) → Log N → Result (TransactionError E) A × Log N
  unfolding rollback
  transaction work log =
      let (ending, log') = work log in
      elim ending [
        | returned a ↦ (ok a, log')
        | promised ↦ (err async_work, rollback log log')
        | threw e ↦ (err (work_error e), rollback log log')
      ]

module _ {N : Type 0} ⦃numbers : Number N⦄ where
  -- `encodeRecord(record)`
  unfoldable pub encode_record : Js N → Result LogInputError (Js N)
  encode_record v = elim (canonical_json v) [ ok t ↦ ok v | err e ↦ err (invalid_record e) ]

  -- The rest of `append`, after its two checks.
  unfoldable pub store_record :
      Result LogInputError Str
      → Result LogInputError (Js N)
      → Log N
      → Result LogInputError ℕ × Log N
  unfolding entries_of
  store_record (err e) v log = (err e, log)
  store_record (ok name) (err e) log = (err e, log)
  store_record (ok name) (ok v) log =
      let es = entries_of name log ++ v ∷ [] in (ok (length es), Map.set name es log)

  -- `append(stream, record)`
  unfoldable pub append : Js N → Js N → Log N → Result LogInputError ℕ × Log N
  unfolding encode_record store_record
  append stream v log = store_record (assert_stream stream) (encode_record v) log
