-- ===== src/Sql/Resolution.antt =====
-- The resolution of a table ends, and no two logical names share a table
-- (packages/store/src/sql.ts).
use mirk.Common.{
  ℕ, ◌+◌, ◌<◌, ◌≡◌, ◌≢◌, inl, inr, refl, sym, ap, ◌∙◌, Bool, true, false, ◌&&◌, Option, none, some,
  List, [], ◌∷◌, length, Member, arith, Option-cases, Bool-cases,
}
use mirk.Common.Result.{Result, ok}
use mirk.Text.{Str, str_eq}
use mirk.Text.Units.{str_eq_iff, str_eq_refl}
use mirk.Sql.Paths.{legacy_table_name}
use mirk.Sql.Tables.{
  Registration, Registry, RegistryError, registered, claimant, insert_row, next_candidate,
  take_table, choose_table, resolve_table_once,
}
use mirk.Sql.Candidates.{next_candidate-found, next_candidate-free}

-- The primary key and the unique table name of `_mirk_tables`.
pub record IsRegistry (registry : Registry) : Type 0 where
  pub names_once :
      (a b : Registration)
      → Member a registry.rows
      → Member b registry.rows
      → a.kind ≡ b.kind
      → a.name ≡ b.name
      → a ≡ b
  pub tables_once :
      (a b : Registration)
      → Member a registry.rows
      → Member b registry.rows
      → a.table ≡ b.table
      → a ≡ b

-- The answer of a resolution: the table and the registry afterwards, which keeps its rows, is one still,
-- records the table if that was asked, and has no other name for the table.
pub record Resolved (kind name : Str) (register : Bool) (registry : Registry) (table : Str)
    (registry' : Registry) : Type 0 where
  pub kept : (r : Registration) → Member r registry.rows → Member r registry'.rows
  pub still : IsRegistry registry'
  pub recorded : register ≡ true → registered kind name registry'.rows ≡ some table
  pub unshared :
      (r : Registration)
      → Member r registry'.rows
      → r.table ≡ table
      → (r.kind ≡ kind) × (r.name ≡ name)

registered-Member :
    (kind name table : Str) (rows : List Registration)
    → registered kind name rows ≡ some table
    → (r : Registration) × Member r rows × (r.kind ≡ kind) × (r.name ≡ name) × (r.table ≡ table)
unfolding registered
registered-Member kind name table [] h = cc
registered-Member kind name table (r ∷ rows) h =
    elim (Bool-cases (str_eq r.kind kind && str_eq r.name name)) [
      | inl e ↦ (
        r,
        inl refl,
        ground (arith, str_eq_iff r.kind kind),
        ground (arith, str_eq_iff r.name name),
        ground arith,
      )
      | inr e ↦
          let (q, m, k, n, t) = registered-Member kind name table rows (ground arith) in
          (q, inr m, k, n, t)
    ]

registered-absent :
    (kind name : Str) (rows : List Registration) (r : Registration)
    → registered kind name rows ≡ none
    → Member r rows
    → r.kind ≡ kind
    → r.name ≢ name
unfolding registered
registered-absent kind name [] r h m p q = absurd m
registered-absent kind name (x ∷ rows) r h m p q =
    elim (Bool-cases (str_eq x.kind kind && str_eq x.name name)) [
      | inl e ↦ ground arith
      | inr e ↦ elim m [
        | inl same ↦
            let k : x.kind ≡ kind = sym (ap (λ y. y.kind) same) ∙ p in
            let n : x.name ≡ name = sym (ap (λ y. y.name) same) ∙ q in
            ground (arith, str_eq_iff x.kind kind, str_eq_iff x.name name)
        | inr later ↦ registered-absent kind name rows r (ground arith) later p q
      ]
    ]

claimant-absent :
    (table : Str) (rows : List Registration) (r : Registration)
    → claimant table rows ≡ none
    → Member r rows
    → r.table ≢ table
unfolding claimant
claimant-absent table [] r h m q = absurd m
claimant-absent table (x ∷ rows) r h m q = elim m [
  | inl same ↦
      let t : x.table ≡ table = sym (ap (λ y. y.table) same) ∙ q in
      ground (arith, str_eq_iff x.table table)
  | inr later ↦ claimant-absent table rows r (ground (arith, str_eq_iff x.table table)) later q
]

-- A table that is free and a name that is not registered: a row more.
IsRegistry-row :
    (r : Registration) (registry : Registry)
    → IsRegistry registry
    → registered r.kind r.name registry.rows ≡ none
    → claimant r.table registry.rows ≡ none
    → IsRegistry (record registry { rows = r ∷ registry.rows })
IsRegistry-row r registry inv new free = record {
  names_once = λ a b p q k n. elim p [
    | inl x ↦ elim q [
      | inl y ↦ x ∙ sym y
      | inr y ↦ absurd (
          registered-absent r.kind r.name registry.rows b new y (sym k ∙ ap (λ z. z.kind) x)
            (sym n ∙ ap (λ z. z.name) x))
    ]
    | inr x ↦ elim q [
      | inl y ↦ absurd (
          registered-absent r.kind r.name registry.rows a new x (k ∙ ap (λ z. z.kind) y)
            (n ∙ ap (λ z. z.name) y))
      | inr y ↦ inv.names_once a b x y k n
    ]
  ];
  tables_once = λ a b p q t. elim p [
    | inl x ↦ elim q [
      | inl y ↦ x ∙ sym y
      | inr y ↦
          absurd (claimant-absent r.table registry.rows b free y (sym t ∙ ap (λ z. z.table) x))
    ]
    | inr x ↦ elim q [
      | inl y ↦ absurd (claimant-absent r.table registry.rows a free x (t ∙ ap (λ z. z.table) y))
      | inr y ↦ inv.tables_once a b x y t
    ]
  ];
}

-- What a resolution that answers has.
abbrev Answers :
    Str → Str → Bool → Registry → Option (Result RegistryError (Str × Registry)) → Type 0
Answers kind name register registry answer =
    (table : Str) × (registry' : Registry) × (answer ≡ some (ok (table, registry')))
    × Resolved kind name register registry table registry'

take_table-Answers :
    (kind name table : Str) (register : Bool) (registry : Registry)
    → IsRegistry registry
    → registered kind name registry.rows ≡ none
    → claimant table registry.rows ≡ none
    → Answers kind name register registry (some (take_table kind name register table registry))
unfolding take_table insert_row registered
take_table-Answers kind name table false registry inv new free = (
  table,
  registry,
  refl,
  record {
    kept = λ r m. m;
    still = inv;
    recorded = λ h. cc;
    unshared = λ r m e. absurd (claimant-absent table registry.rows r free m e);
  },
)
take_table-Answers kind name table true registry inv new free =
    let row : Registration = record { kind = kind; name = name; table = table } in
    let insert_free : ◌≡◌ {A = Result RegistryError Registry} (insert_row row registry)
        (ok (record registry { rows = row ∷ registry.rows })) =
      rw (new, insert_row) (rw (free, insert_row)) in
    (
      table,
      record registry { rows = row ∷ registry.rows },
      rw (insert_free, take_table),
      record {
        kept = λ r m. inr m;
        still = IsRegistry-row row registry inv new free;
        recorded = λ h. ground (arith, str_eq_refl kind, str_eq_refl name);
        unshared = λ r m e. elim m [
          | inl same ↦ (ap (λ z. z.kind) same, ap (λ z. z.name) same)
          | inr old ↦ absurd (claimant-absent table registry.rows r free old e)
        ];
      },
    )

choose_table-Answers :
    (fuel : ℕ) (kind name legacy : Str) (register : Bool) (registry : Registry)
    → length registry.rows + length registry.tables < fuel
    → IsRegistry registry
    → registered kind name registry.rows ≡ none
    → Answers kind name register registry (choose_table fuel kind name register legacy registry)
unfolding choose_table
choose_table-Answers fuel kind name legacy register registry enough inv new =
    elim (Option-cases (claimant legacy registry.rows)) [
      | inl free ↦
          rw (free, choose_table)
            (take_table-Answers kind name legacy register registry inv new free)
      | inr (n, claimed) ↦ elim (Option-cases (next_candidate fuel 2 legacy registry)) [
        | inl lost ↦ absurd (next_candidate-found fuel legacy registry enough lost)
        | inr (c, found) ↦
            let free = (next_candidate-free fuel 2 legacy c registry found).0 in
            rw (claimed, choose_table)
              (rw (found, choose_table)
                (take_table-Answers kind name c register registry inv new free))
      ]
    ]

-- With more rounds than the registry has rows and the file has tables, the resolution of a table
-- in a registry that keeps its keys ends without a failed constraint: it answers a table that no
-- other logical name has, keeps every row and both keys, and records the table under the name if
-- it is asked to register.
pub resolve_table_once-Resolved :
    (fuel : ℕ) (kind name prefix : Str) (register : Bool) (registry : Registry)
    → length registry.rows + length registry.tables < fuel
    → IsRegistry registry
    → (table : Str) × (registry' : Registry) × (resolve_table_once fuel kind name prefix register
          registry
        ≡ some (ok (table, registry')))
      × Resolved kind name register registry table registry'
unfolding resolve_table_once
resolve_table_once-Resolved fuel kind name prefix register registry enough inv =
    elim (Option-cases (registered kind name registry.rows)) [
      | inl new ↦
          rw (new, resolve_table_once)
            (choose_table-Answers fuel kind name (legacy_table_name prefix name) register registry
              enough inv new)
      | inr (t, old) ↦ (
        t,
        registry,
        rw (old, resolve_table_once),
        record {
          kept = λ r m. m;
          still = inv;
          recorded = λ h. old;
          unshared = λ r m e.
              let (q, n, k, i, s) = registered-Member kind name t registry.rows old in
              let same = inv.tables_once r q m n (e ∙ sym s) in
              (ap (λ z. z.kind) same ∙ k, ap (λ z. z.name) same ∙ i);
        },
      )
    ]
