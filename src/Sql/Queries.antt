-- ===== src/Sql/Queries.antt =====
-- The text and the parameters of a query of the SQLite adapter
-- (packages/store/src/adapters/sqlite-core.ts).
use mirk.Common.{not, Option, List, ◌++◌}
use mirk.Common.Result.{Result, ok, ◌>>=◌}
use mirk.Text.{Str, ascii, is_empty}
use mirk.Js.{Number, Js}
use mirk.Filter.{FilterError, StoreFilter}
use mirk.Sql.Clauses.{
  SqlParam, build_where_clause, build_in_clause, build_order_by, build_limit_offset,
}

module _ {N : Type 0} ⦃numbers : Number N⦄ where
  -- The query of `list`.
  unfoldable pub list_query :
      Str → Option (StoreFilter N) → Result FilterError (Str × List (SqlParam N))
  unfolding build_where_clause build_order_by build_limit_offset
  list_query table f = do
    found ← build_where_clause f
    ok (
      ascii "SELECT data FROM "
          ++ (table ++ (found.0 ++ (build_order_by f ++ build_limit_offset f))),
      found.1,
    )

  -- The query of `listWhereIn`, for values that are there.
  unfoldable pub list_where_in_query :
      Str
      → Str
      → List (Js N)
      → Option (StoreFilter N)
      → Result FilterError (Str × List (SqlParam N))
  unfolding build_where_clause build_in_clause build_order_by build_limit_offset
  list_where_in_query table k values f = do
    found ← build_where_clause f
    inside ← build_in_clause k values (not (is_empty found.0))
    ok (
      ascii "SELECT data FROM "
          ++ (table ++ (found.0 ++ (inside.0 ++ (build_order_by f ++ build_limit_offset f)))),
      found.1 ++ inside.1,
    )

  -- The query of `count`.
  unfoldable pub count_query :
      Str → Option (StoreFilter N) → Result FilterError (Str × List (SqlParam N))
  unfolding build_where_clause
  count_query table f = do
    found ← build_where_clause f
    ok (ascii "SELECT COUNT(*) as cnt FROM " ++ (table ++ found.0), found.1)
