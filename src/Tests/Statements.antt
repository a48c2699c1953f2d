-- ===== src/Tests/Statements.antt =====
-- The theorems on SQL text at a table, and the names of known tables.
use mirk.Common.{ℕ, ◌≡◌, refl, true, false, none, some, [], ◌∷◌, ◌++◌, arith}
use mirk.Common.Result.{ok}
use mirk.Text.{Str, ascii, str_eq}
use mirk.Js.{num, null, field, end, entries, obj}
use mirk.Filter.{
  StoreFilter, where_condition, assert_in_values, assert_scalars, range_condition, range_keys,
  range_bounds,
}
use mirk.Sql.Paths.{
  json_path, json_path_literal, sql_literal, double_quotes, hide_quotes, without_last, hash_name,
  hash_units, hash_unit, base36_from,
}
use mirk.Sql.Clauses.{
  text_param, number_param, where_clause, where_terms, condition_terms, join, build_where_clause,
  build_in_clause, in_scalars, in_kinds, scalar_terms, marks, kind_terms, any_of, build_order_by,
  build_limit_offset, add_kind, range_terms, range_params, range_guard, any_bound,
}
use mirk.Sql.Closed.{placeholders, ends_inside}
use mirk.Sql.Queries.{list_where_in_query}
use mirk.Sql.Balance.{list_where_in_query-balanced}
use mirk.Sql.Literal.{read_literal, read_literal-json_path_literal}
use mirk.Sql.Tables.{Registry, resolve_table_once}
use mirk.Sql.Resolution.{IsRegistry, Resolved, resolve_table_once-Resolved}
use mirk.Tests.{nat_number, text, program}

abbrev filter_a : StoreFilter ℕ
filter_a = record {
  conditions =
      some (
        field (ascii "a") (text "x")
          (field (ascii "b") (obj (field (ascii "gt") (num 3) end)) end));
  sort_by = none;
  descending = false;
  limit = none;
  offset = none;
}

abbrev query_text : Str
query_text =
    ascii
      "SELECT data FROM c_t WHERE json_extract(data, '$.\"a\"') = ? AND json_type(data, '$.\"a\"') = 'text' AND unlikely(json_extract(data, '$.\"b\"') > ?) AND json_type(data, '$.\"b\"') IN ('integer', 'real') AND ((json_extract(data, '$.\"k\"') IN (?) AND json_type(data, '$.\"k\"') IN ('integer', 'real', 'text')) OR (json_extract(data, '$.\"k\"') IS NULL AND json_type(data, '$.\"k\"') = 'null')) ORDER BY rowid"

query_run :
    list_where_in_query (ascii "c_t") (ascii "k") (num 1 ∷ null ∷ []) (some filter_a)
    ≡ ok (query_text, text_param (ascii "x") ∷ number_param 3 ∷ number_param 1 ∷ [])
unfolding list_where_in_query build_where_clause build_in_clause build_order_by build_limit_offset
    where_clause where_terms condition_terms join where_condition range_condition range_keys
    range_bounds range_terms range_params range_guard any_bound entries assert_in_values
    assert_scalars in_scalars in_kinds add_kind scalar_terms marks kind_terms any_of
    json_path_literal json_path sql_literal double_quotes hide_quotes without_last str_eq program
query_run = refl

list_where_in_query-balanced_example :
    (placeholders query_text ≡ 3) × (ends_inside false query_text ≡ false)
list_where_in_query-balanced_example =
    list_where_in_query-balanced (ascii "c_t") (ascii "k") (num 1 ∷ null ∷ []) (some filter_a)
      (query_text, text_param (ascii "x") ∷ number_param 3 ∷ number_param 1 ∷ [])
      (refl, (refl, (refl, tt))) query_run

read_literal-json_path_literal_example :
    read_literal (json_path_literal (ascii "it's") ++ ascii ")")
    ≡ some (json_path (ascii "it's"), ascii ")")
read_literal-json_path_literal_example =
    read_literal-json_path_literal (ascii "it's") (ascii ")") refl

-- The two names of the source's comment that share a hash.
hash_run : hash_name (ascii "%$;**@") ≡ ascii "jqoxun"
unfolding hash_name hash_units hash_unit base36_from
hash_run = refl

same_hash_run : hash_name (ascii "~,~$(*") ≡ ascii "jqoxun"
unfolding hash_name hash_units hash_unit base36_from
same_hash_run = refl

abbrev no_tables : Registry
no_tables = record { rows = []; tables = [] }

no_tables-IsRegistry : IsRegistry no_tables
no_tables-IsRegistry = record { names_once = λ a b p. absurd p; tables_once = λ a b p. absurd p }

resolve_table_once-Resolved_example :
    (table : Str) × (registry' : Registry) × (resolve_table_once 1
        (ascii "collection")
        (ascii "%$;**@")
        (ascii "c_")
        true
        no_tables
      ≡ some (ok (table, registry')))
    × Resolved (ascii "collection") (ascii "%$;**@") true no_tables table registry'
resolve_table_once-Resolved_example =
    resolve_table_once-Resolved 1 (ascii "collection") (ascii "%$;**@") (ascii "c_") true no_tables
      (omega arith) no_tables-IsRegistry
