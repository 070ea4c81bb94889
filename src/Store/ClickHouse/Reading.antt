-- ===== src/Store/ClickHouse/Reading.antt =====
-- internal/store/clickhouse.go: `clickhouseWhere`, `clickhouseParam`, `queryContext`, `ListQueries`,
-- `GetQuery`, `discard`, `Validate`, `ValidateTable` and `Init`.
use trino_log_sink.Base.{
  Bytes, List, Option, [], codes, decimal, if◌then◌else◌, itoa, join, ltb_ℤ, none, pos, some, suc,
  ℕ, ℤ, ◌++◌, ◌∷◌,
}
use trino_log_sink.Settings.{ClickHouse}
use trino_log_sink.Store.Row.{Arg, Row, int64, null, text, time}
use trino_log_sink.Store.Errors.{Error, wrapped}
use trino_log_sink.Store.Cursor.{Pair, Result, Rows, drained, failed, first_row, list_rows, ok}
use trino_log_sink.Store.Identifier.{quote_ident}
use trino_log_sink.Store.Calendar.Civil.{micros_date}
use trino_log_sink.Store.Query.{
  Predicate, QueryFilter, QuerySummary, list_predicates, order_by, page_limit, query_id_predicates,
}
use trino_log_sink.Store.ClickHouse.Schema.{
  ClickHouseStore, clickhouse_timestamp_type, database_ddl, table_ddl,
}
use trino_log_sink.Store.ClickHouse.Escape.{clickhouse_param_value}

-- `clickhouse.Parameters`: the names and the values, in the order in which they are set.
abbrev pub Parameters : Type 0
Parameters = List (Bytes × Bytes)

-- The settings and the parameters of a query's context.
pub record CallContext : Type 0 where
  pub settings : List (Bytes × ℤ)
  pub params : Parameters

-- `conn.Query`, whose rows are scanned into the type.
abbrev pub Query : Type 0 → Type 0 → Type 0
Query W A = W → CallContext → Bytes → W × Result (Rows A)

abbrev pub Exec : Type 0 → Type 0
Exec W = W → Bytes → W × Option Error

-- The type and the value of a parameter; a null would be printed by `fmt.Sprint`.
param_type : Arg → Bytes
param_type (time t) = clickhouse_timestamp_type
param_type (int64 n) = codes "Int64"
param_type (text s) = codes "String"
param_type null = codes "String"

unfoldable pub param_value : Arg → Bytes
unfolding micros_date itoa clickhouse_param_value
param_value (time t) = micros_date t
param_value (int64 n) = itoa n
param_value (text s) = clickhouse_param_value s
param_value null = clickhouse_param_value (codes "<nil>")

-- The text of the parameter, and what is set in `params`.
unfoldable pub clickhouse_param : Bytes → Arg → Bytes × (Bytes × Bytes)
unfolding param_type param_value
clickhouse_param name v = (b'{' ∷ name ++ b':' ∷ param_type v ++ b'}' ∷ [], (name, param_value v))

unfoldable pub param_name : ℕ → Bytes
unfolding decimal
param_name i = b'p' ∷ decimal i

-- The conditions and the parameters of the predicates from the index on.
unfoldable pub where_parts : ℕ → List Predicate → List Bytes × Parameters
unfolding clickhouse_param param_name quote_ident
where_parts i [] = ([], [])
where_parts i (p ∷ ps) =
    let (part, set_param) = clickhouse_param (param_name i) p.value in
    let (parts, params) = where_parts (suc i) ps in
    ((quote_ident p.column ++ codes " " ++ p.op ++ codes " " ++ part) ∷ parts, set_param ∷ params)

unfoldable pub clickhouse_where : List Predicate → Bytes × Parameters
unfolding where_parts join
clickhouse_where [] = ([], [])
clickhouse_where (p ∷ ps) =
    let (parts, params) = where_parts 0 (p ∷ ps) in
    (codes " WHERE " ++ join parts (codes " AND "), params)

-- No parameters are set when there are none.
unfoldable pub query_context : Parameters → CallContext
query_context params = record {
  settings = (codes "do_not_merge_across_partitions_select_final", pos 1) ∷ [];
  params = params;
}

module _ (s : ClickHouseStore) where
  unfoldable pub list_text : QueryFilter → Bytes
  unfolding clickhouse_where list_predicates order_by page_limit itoa
  list_text f =
      s.summary_select
      ++ (clickhouse_where (list_predicates f)).0
      ++ codes " ORDER BY "
      ++ order_by f
      ++ codes " LIMIT "
      ++ itoa (page_limit f)
      ++ (if ltb_ℤ (pos 0) f.offset then codes " OFFSET " ++ itoa f.offset else [])

  unfoldable pub list_context : QueryFilter → CallContext
  unfolding clickhouse_where list_predicates query_context
  list_context f = query_context (clickhouse_where (list_predicates f)).1

  module _ {W : Type 0} where
    unfoldable pub list_queries : Query W QuerySummary → W → QueryFilter → W × Pair QuerySummary
    unfolding list_text list_context list_rows
    list_queries query w f =
        let (w', answer) = query w (list_context f) (list_text f) in
        elim answer [
          | failed e ↦ (w', ([], some (wrapped (codes "list queries: ") e)))
          | ok rows ↦ (w', list_rows rows)
        ]

    unfoldable pub get_query : Query W Row → W → Bytes → W × Option Row × Option Error
    unfolding query_id_predicates clickhouse_where query_context first_row
    get_query query w id = elim (query_id_predicates id) [
      | none ↦ (w, none, none)
      | some preds ↦
          let (where_text, params) = clickhouse_where preds in
          let (w', answer) =
            query w (query_context params) (s.row_select ++ where_text ++ codes " LIMIT 1") in
          elim answer [
            | failed e ↦ (w', none, some (wrapped (codes "get query " ++ id ++ codes ": ") e))
            | ok rows ↦ let (r, err) = first_row rows in (w', r, err)
          ]
    ]

    unfoldable pub discard : Query W Unit → W → Bytes → Parameters → W × Option Error
    unfolding query_context drained
    discard query w stmt params =
        let (w', answer) = query w (query_context params) stmt in
        elim answer [ failed e ↦ (w', some e) | ok rows ↦ (w', drained rows) ]

    unfoldable pub validate : Query W Unit → W → W × Option Error
    unfolding discard
    validate query w =
        let (w', err) = discard query w (codes "SELECT 1") [] in
        elim err [
          | some e ↦ (w', some (wrapped (codes "clickhouse not reachable: ") e))
          | none ↦ (w', none)
        ]

    unfoldable pub validate_table : Query W Unit → W → W × Option Error
    unfolding discard
    validate_table query w =
        let (w', err) =
          discard query w (codes "SELECT 1 FROM " ++ s.table ++ codes " WHERE 0") [] in
        elim err [
          | some e ↦ (
            w',
            some (
                wrapped
                  (codes "query log table "
                    ++ s.table
                    ++ codes
                        " not reachable; apply the DDL (init subcommand or ddl/clickhouse_query_log.sql): ")
                  e),
          )
          | none ↦ (w', none)
        ]

    unfoldable pub init : Exec W → ClickHouse → W → W × Option Error
    unfolding database_ddl table_ddl
    init exec cfg w =
        let (w', err) = exec w (database_ddl cfg) in
        let (w'', err') = exec w' (table_ddl s) in
        elim err [
          | some e ↦ (w', some (wrapped (codes "create database: ") e))
          | none ↦ elim err' [
            | some e ↦ (w'', some (wrapped (codes "create table: ") e))
            | none ↦ (w'', none)
          ]
        ]
