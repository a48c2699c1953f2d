-- ===== src/Sql/Tables.antt =====
-- The registry of physical tables: `tableResolution` (packages/store/src/sql.ts) with the answers that
-- `resolveTableOnce` gives it (packages/store/src/adapters/sqlite-core.ts).
use mirk.Common.{
  ℕ, zero, suc, ◌+◌, Bool, true, false, ◌&&◌, ◌||◌, Option, none, some, List, [], ◌∷◌,
  if◌then◌else◌,
}
use mirk.Common.Result.{Result, ok, err}
use mirk.Text.{Str, str_eq}
use mirk.Sql.Paths.{legacy_table_name, candidate_table_name}

-- A row of `_mirk_tables`.
pub record Registration : Type 0 where
  pub kind : Str
  pub name : Str
  pub table : Str

-- The rows, and the names of the tables and views that the file has.
pub record Registry : Type 0 where
  pub rows : List Registration
  pub tables : List Str

pub data RegistryError : Type 0 where
  constraint_failed : RegistryError

-- `SELECT_REGISTERED_TABLE_SQL`
unfoldable pub registered : Str → Str → List Registration → Option Str
registered kind name [] = none
registered kind name (r ∷ rows) =
    if str_eq r.kind kind && str_eq r.name name then some r.table else registered kind name rows

-- `SELECT_TABLE_CLAIM_SQL`
unfoldable pub claimant : Str → List Registration → Option Str
claimant table [] = none
claimant table (r ∷ rows) = if str_eq r.table table then some r.name else claimant table rows

-- `SELECT_TABLE_EXISTS_SQL`
unfoldable pub table_exists : Str → List Str → Bool
table_exists table [] = false
table_exists table (t ∷ ts) = str_eq t table || table_exists table ts

-- `INSERT_REGISTERED_TABLE_SQL` under the primary key and the unique table name.
unfoldable pub insert_row : Registration → Registry → Result RegistryError Registry
unfolding registered claimant
insert_row r registry = elim (registered r.kind r.name registry.rows) [
  | some t ↦ err constraint_failed
  | none ↦ elim (claimant r.table registry.rows) [
    | some n ↦ err constraint_failed
    | none ↦ ok (record registry { rows = r ∷ registry.rows })
  ]
]

-- The loop over the suffixed candidates, for at most as many rounds as there is fuel.
unfoldable pub next_candidate : ℕ → ℕ → Str → Registry → Option Str
unfolding claimant table_exists candidate_table_name
next_candidate zero attempt legacy registry = none
next_candidate (suc fuel) attempt legacy registry =
    let candidate = candidate_table_name legacy attempt in
    let rest = next_candidate fuel (attempt + 1) legacy registry in
    elim (claimant candidate registry.rows) [
      | some n ↦ rest
      | none ↦ if table_exists candidate registry.tables then rest else some candidate
    ]

abbrev added :
    Str → Registry → Result RegistryError Registry → Result RegistryError (Str × Registry)
added table registry (ok registry') = ok (table, registry')
added table registry (err e) = err e

-- `if (register) yield { q: "register", … }; return table`
unfoldable pub take_table :
    Str → Str → Bool → Str → Registry → Result RegistryError (Str × Registry)
unfolding insert_row
take_table kind name false table registry = ok (table, registry)
take_table kind name true table registry =
    added table registry (insert_row (record { kind = kind; name = name; table = table }) registry)

-- What is done about a name that is not registered.
unfoldable pub choose_table :
    ℕ → Str → Str → Bool → Str → Registry → Option (Result RegistryError (Str × Registry))
unfolding claimant next_candidate take_table
choose_table fuel kind name register legacy registry = elim (claimant legacy registry.rows) [
  | none ↦ some (take_table kind name register legacy registry)
  | some n ↦ elim (next_candidate fuel 2 legacy registry) [
    | none ↦ none
    | some candidate ↦ some (take_table kind name register candidate registry)
  ]
]

-- `resolveTableOnce(db, kind, name, prefix, register)`; without enough fuel there is no answer.
unfoldable pub resolve_table_once :
    ℕ → Str → Str → Str → Bool → Registry → Option (Result RegistryError (Str × Registry))
unfolding registered choose_table legacy_table_name
resolve_table_once fuel kind name prefix register registry =
    elim (registered kind name registry.rows) [
      | some table ↦ some (ok (table, registry))
      | none ↦ choose_table fuel kind name register (legacy_table_name prefix name) registry
    ]
