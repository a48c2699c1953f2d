-- ===== src/Log/Appends.antt =====
-- What an append leaves, and what the readers then answer (packages/store/src/log/memory.ts).
use mirk.Common.{
  Bool, ℕ, zero, suc, ◌+◌, ◌-◌, ◌==◌, ◌≤◌, ◌≡◌, refl, sym, ap, ◌∙◌, true, false, Option, none, some,
  List, [], ◌∷◌, ◌++◌, arith, length, get_elem?, get_elem?-drop, get_elem?-none_of_le,
  get_elem?-append_last, drop, ltb, length-append, if◌then◌else◌,
}
use mirk.Common.Result.{Result, ok}
use mirk.Text.{Str, is_empty, str_eq}
use mirk.Text.Units.{str_eq_refl}
use mirk.Map
use mirk.Map.{Map}
use mirk.Map.Laws.{get-set}
use mirk.Js.{Number, Js, str}
use mirk.Atomic.Limits.{natural, max_safe_integer}
use mirk.Log.{
  Log, LogEntry, Bounds, ListOptions, LogInputError, list_bounds, assert_stream, assert_sequence,
  entries_of, encode_record, append, get, list, numbered, window,
}

module _ {N : Type 0} where
  -- The records of the appended stream, one longer; every other stream as it was.
  entries_of-set :
      (k j : Str) (es : List (Js N)) (log : Log N)
      → entries_of j (Map.set k es log) ≡ (if str_eq k j then es else entries_of j log)
  unfolding entries_of
  entries_of-set k j es log = ground (arith, get-set k j es log)

abbrev accepted : {A : Type 0} → A → Result LogInputError A
accepted a = ok a

accepted-if :
    {A : Type 0} (test : Bool) (a : Option A)
    → accepted (if test then a else none) ≡ (if test then ok a else ok none)
accepted-if true a = refl
accepted-if false a = refl

module _ {N : Type 0} ⦃numbers : Number N⦄ where
  append-eq_ok :
      (k : Str) (v : Js N) (log log' : Log N) (n : ℕ)
      → append (str k) v log ≡ (ok n, log')
      → (is_empty k ≡ false)
        × (n ≡ length (entries_of k log ++ v ∷ []))
        × (log' ≡ Map.set k (entries_of k log ++ v ∷ []) log)
  unfolding append encode_record assert_stream
  append-eq_ok k v log log' n h = ground arith

  -- An append that is accepted answers the next sequence of its stream, adds the record at the
  -- end of the stream, and leaves every other stream.
  pub append_lem :
      (k : Str) (v : Js N) (log log' : Log N) (n : ℕ)
      → append (str k) v log ≡ (ok n, log')
      → (n ≡ length (entries_of k log) + 1)
        × ((j : Str)
            → entries_of j log'
              ≡ (if str_eq k j then entries_of k log ++ v ∷ [] else entries_of j log))
  append_lem k v log log' n h =
      let (named, size, end) = append-eq_ok k v log log' n h in
      (
        size ∙ length-append (entries_of k log) (v ∷ []),
        λ j. ap (entries_of j) end ∙ entries_of-set k j (entries_of k log ++ v ∷ []) log,
      )

-- Whether a place of a listing lies before its limit.
abbrev pub within_limit : ℕ → Option ℕ → Bool
within_limit i none = true
within_limit i (some limit) = ltb i limit

abbrev pub entry_at : {N : Type 0} → ℕ → Option (Js N) → Option (LogEntry N)
entry_at n none = none
entry_at n (some v) = some (record { sequence = n; value = v })

module _ {N : Type 0} ⦃numbers : Number N⦄ where
  get_lem :
      (k : Str) (m : ℕ) (log : Log N)
      → is_empty k ≡ false
      → 1 ≤ m
      → m ≤ max_safe_integer
      → get (str k) (natural m) log ≡ ok (entry_at m (get_elem? (entries_of k log) (m - 1)))
  unfolding get assert_stream assert_sequence
  get_lem k m log named low high = ground arith

  -- After an append was given a sequence, get finds the record under that sequence, and under any
  -- other safe positive sequence of the stream what it found before.
  pub get-append :
      (k : Str) (v : Js N) (log log' : Log N) (n m : ℕ)
      → append (str k) v log ≡ (ok n, log')
      → 1 ≤ m
      → m ≤ max_safe_integer
      → get (str k) (natural m) log' ≡ (
          if m == n
          then ok (some (record { sequence = n; value = v }))
          else get (str k) (natural m) log)
  get-append k v log log' n m h low high =
      let (named, size, end) = append-eq_ok k v log log' n h in
      let (count, found) = append_lem k v log log' n h in
      let here : entries_of k log' ≡ entries_of k log ++ v ∷ [] =
        found k
        ∙ ap (λ b. if b then entries_of k log ++ v ∷ [] else entries_of k log) (str_eq_refl k) in
      rw
        (
          get_lem k m log' named low high,
          get_lem k m log named low high,
          here,
          get_elem?-append_last (entries_of k log) v (m - 1),
        )
        (ground arith)

  get_elem?-numbered :
      (left index i : ℕ) (es : List (Js N))
      → get_elem? (numbered left index es) i
        ≡ (if ltb i left then entry_at (index + i + 1) (get_elem? es i) else none)
  unfolding numbered
  get_elem?-numbered zero index i es = ground arith
  get_elem?-numbered (suc left) index i [] = ground arith
  get_elem?-numbered (suc left) index zero (v ∷ es) = ground arith
  get_elem?-numbered (suc left) index (suc i) (v ∷ es) =
      let e : index + 1 + i + 1 ≡ index + suc i + 1 = omega arith in
      ground (arith, get_elem?-numbered left (index + 1) i es)

  -- The window ends where the records do.
  entry_at-window :
      (limit : Option ℕ) (after i : ℕ) (es : List (Js N))
      → (if ltb i (window limit after (length es))
          then entry_at (after + i + 1) (get_elem? es (after + i))
          else none)
        ≡ (if within_limit i limit
            then entry_at (after + i + 1) (get_elem? es (after + i))
            else none)
  entry_at-window none after i es = ground (arith, get_elem?-none_of_le es (after + i))
  entry_at-window (some n) after i es = ground (arith, get_elem?-none_of_le es (after + i))

  -- With bounds that are accepted and a named stream, the entry at a place of list is, within the
  -- limit, the one that get finds at the sequence after the bound by that place, and there is
  -- none past the limit.
  pub list-get :
      (k : Str) (options : Option ListOptions) (b : Bounds) (i : ℕ) (log : Log N)
      → list_bounds options ≡ ok b
      → is_empty k ≡ false
      → b.after + i + 1 ≤ max_safe_integer
      → (es : List (LogEntry N)) × (list (str k) options log ≡ ok es)
        × (ok (get_elem? es i) ≡ (
            if within_limit i b.limit
            then get (str k) (natural (b.after + i + 1)) log
            else ok none))
  unfolding list assert_stream
  list-get k options b i log bounded named high =
      let es = entries_of k log in
      let place : b.after + i + 1 - 1 ≡ b.after + i = omega arith in
      let found : get (str k) (natural (b.after + i + 1)) log
          ≡ ok (entry_at (b.after + i + 1) (get_elem? es (b.after + i))) =
        get_lem k (b.after + i + 1) log named (omega arith) high
        ∙ ap (λ j. ok (entry_at (b.after + i + 1) (get_elem? es j))) place in
      let left = window b.limit b.after (length es) in
      (
        numbered left b.after (drop b.after es),
        rw (named, bounded) refl,
        ap accepted (
              get_elem?-numbered left b.after i (drop b.after es)
              ∙ ap (λ o. if ltb i left then entry_at (b.after + i + 1) o else none)
                  (get_elem?-drop b.after i es)
              ∙ entry_at-window b.limit b.after i es)
            ∙ accepted-if (within_limit i b.limit) _
            ∙ ap (λ r. if within_limit i b.limit then r else ok none) (sym found),
      )
