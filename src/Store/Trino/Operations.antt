-- ===== src/Store/Trino/Operations.antt =====
-- internal/store/trino.go: `Validate`, `ValidateTable`, `ListQueries`, `GetQuery`, `Prune`, `Optimize`,
-- `Maintain`, `Init` and the DDL. `query` and `exec` are the database's `QueryContext` and `ExecContext`.
use trino_log_sink.Base.{
  Bytes, List, Option, [], codes, if◌then◌else◌, is_empty, join, map, none, some, ◌++◌, ◌∷◌,
}
use trino_log_sink.Event.{Time}
use trino_log_sink.Store.Row.{Arg, Row, time}
use trino_log_sink.Store.Errors.{Error, wrapped}
use trino_log_sink.Store.Cursor.{Pair, Result, Rows, failed, first_row, list_rows, ok}
use trino_log_sink.Store.Identifier.{
  SqlType, bigint, double_byte, quote_ident, schema_columns, timestamp, varchar,
}
use trino_log_sink.Store.Calendar.Civil.{millis_date, rfc3339}
use trino_log_sink.Store.Query.{QueryFilter, QuerySummary}
use trino_log_sink.Store.Query.Statement.{get_statement, list_args, list_text}
use trino_log_sink.Store.Trino.Statements.{TrinoConfig, TrinoStore}

abbrev pub Query : Type 0 → Type 0 → Type 0
Query W A = W → Bytes → List Arg → W × Result (Rows A)

abbrev pub Exec : Type 0 → Type 0
Exec W = W → Bytes → List Arg → W × Option Error

-- An error under a prefix, as `fmt.Errorf` returns it; nil stays nil.
unfoldable pub under : Bytes → Option Error → Option Error
under prefix none = none
under prefix (some e) = some (wrapped prefix e)

-- `c.sqlType`.
sql_type_text : SqlType → Bytes
sql_type_text varchar = codes "varchar"
sql_type_text timestamp = codes "timestamp(6) with time zone"
sql_type_text bigint = codes "bigint"

abbrev line_end : Bytes
line_end = b',' ∷ 10 ∷ []

unfoldable pub schema_ddl : TrinoConfig → Bytes
unfolding quote_ident is_empty double_byte
schema_ddl cfg =
    let stmt =
      codes "CREATE SCHEMA IF NOT EXISTS "
      ++ quote_ident cfg.catalog
      ++ codes "."
      ++ quote_ident cfg.schema in
    if is_empty cfg.iceberg_location
    then stmt
    else stmt ++ codes " WITH (location = '" ++ double_byte b'\'' cfg.iceberg_location ++ codes "')"

unfoldable pub table_ddl : TrinoStore → Bytes
unfolding quote_ident sql_type_text join schema_columns
table_ddl s =
    codes "CREATE TABLE IF NOT EXISTS "
    ++ s.table
    ++ codes " ("
    ++ 10 ∷ []
    ++ join
        (map (λ c. codes "  " ++ quote_ident c.name ++ codes " " ++ sql_type_text c.sql_type)
          schema_columns)
        line_end
    ++ 10 ∷ codes ") WITH ("
    ++ 10 ∷ codes "  "
    ++ join
        (codes "partitioning = ARRAY['day(create_time)']"
          ∷ codes "sorted_by = ARRAY['create_time']"
          ∷ codes
              "extra_properties = MAP(ARRAY['write.metadata.delete-after-commit.enabled'], ARRAY['true'])"
          ∷ [])
        (line_end ++ codes "  ")
    ++ 10 ∷ codes ")"

unfoldable pub ddl_script : TrinoConfig → TrinoStore → Bytes
unfolding schema_ddl table_ddl
ddl_script cfg s = schema_ddl cfg ++ b';' ∷ 10 ∷ 10 ∷ table_ddl s ++ b';' ∷ 10 ∷ []

unfoldable pub prune_stmt : TrinoStore → Bytes
unfolding quote_ident
prune_stmt s =
    codes "DELETE FROM "
    ++ s.table
    ++ codes " WHERE "
    ++ quote_ident (codes "create_time")
    ++ codes " < ?"

unfoldable pub optimize_stmt : TrinoStore → Time → Bytes
unfolding quote_ident millis_date
optimize_stmt s since =
    codes "ALTER TABLE "
    ++ s.table
    ++ codes " EXECUTE optimize(file_size_threshold => '64MB') WHERE "
    ++ quote_ident (codes "create_time")
    ++ codes " >= TIMESTAMP '"
    ++ millis_date since
    ++ codes " UTC'"

-- The two steps of `Maintain`, by their names.
unfoldable pub maintain_steps : TrinoStore → Bytes → List (Bytes × Bytes)
unfolding double_byte
maintain_steps s threshold =
    step (codes "expire_snapshots") ∷ step (codes "remove_orphan_files") ∷ []
  where
    step : Bytes → Bytes × Bytes
    step name = (
      name,
      codes "ALTER TABLE "
          ++ s.table
          ++ codes " EXECUTE "
          ++ name
          ++ codes "(retention_threshold => '"
          ++ double_byte b'\'' threshold
          ++ codes "')",
    )

module _ (s : TrinoStore) {W : Type 0} where
  unfoldable pub validate : Query W Unit → W → W × Option Error
  unfolding under
  validate query w =
      let (w', answer) = query w (codes "SELECT 1") [] in
      elim answer [
        | failed e ↦ (w', some (wrapped (codes "trino not reachable: ") e))
        | ok rows ↦ (w', rows.close_err)
      ]

  unfoldable pub validate_table : Query W Unit → W → W × Option Error
  validate_table query w =
      let (w', answer) = query w (codes "SELECT 1 FROM " ++ s.table ++ codes " WHERE false") [] in
      elim answer [
        | failed e ↦ (
          w',
          some (
              wrapped
                (codes "query log table "
                  ++ s.table
                  ++ codes
                      " not reachable; apply the DDL (init subcommand or ddl/trino_query_log.sql): ")
                e),
        )
        | ok rows ↦ (w', rows.close_err)
      ]

  unfoldable pub list_queries : Query W QuerySummary → W → QueryFilter → W × Pair QuerySummary
  unfolding list_text list_args list_rows
  list_queries query w f =
      let (w', answer) = query w (list_text s f) (list_args s f) in
      elim answer [
        | failed e ↦ (w', ([], some (wrapped (codes "list queries: ") e)))
        | ok rows ↦ (w', list_rows rows)
      ]

  unfoldable pub get_query : Query W Row → W → Bytes → W × Option Row × Option Error
  unfolding get_statement first_row
  get_query query w id = elim (get_statement s id) [
    | none ↦ (w, none, none)
    | some (stmt, values) ↦
        let (w', answer) = query w stmt values in
        elim answer [
          | failed e ↦ (w', none, some (wrapped (codes "get query " ++ id ++ codes ": ") e))
          | ok rows ↦ let (r, err) = first_row rows in (w', r, err)
        ]
  ]

  module _ (exec : Exec W) where
    unfoldable pub prune : W → Time → W × Option Error
    unfolding prune_stmt under rfc3339
    prune w older_than =
        let (w', err) = exec w (prune_stmt s) (time older_than ∷ []) in
        (w', under (codes "prune rows older than " ++ rfc3339 older_than ++ codes ": ") err)

    unfoldable pub optimize : W → Time → W × Option Error
    unfolding optimize_stmt under millis_date
    optimize w since =
        let (w', err) = exec w (optimize_stmt s since) [] in
        (w', under (codes "optimize since " ++ millis_date since ++ codes ": ") err)

    -- The loop over the steps; `errors.Join` of no error is nil.
    unfoldable pub maintain_loop : W → List (Bytes × Bytes) → W × List Error
    maintain_loop w [] = (w, [])
    maintain_loop w ((name, stmt) ∷ steps) =
        let (w', err) = exec w stmt [] in
        let (w'', errs) = maintain_loop w' steps in
        elim err [ none ↦ (w'', errs) | some e ↦ (w'', wrapped (name ++ codes ": ") e ∷ errs) ]

    unfoldable pub maintain : W → Bytes → W × List Error
    unfolding maintain_loop maintain_steps
    maintain w threshold = maintain_loop w (maintain_steps s threshold)

    unfoldable pub init : TrinoConfig → W → W × Option Error
    unfolding schema_ddl table_ddl
    init cfg w =
        let (w', err) = exec w (schema_ddl cfg) [] in
        let (w'', err') = exec w' (table_ddl s) [] in
        elim err [
          | some e ↦ (w', some (wrapped (codes "create schema: ") e))
          | none ↦ (w'', under (codes "create table: ") err')
        ]
