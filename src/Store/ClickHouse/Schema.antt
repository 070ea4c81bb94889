-- ===== src/Store/ClickHouse/Schema.antt =====
-- internal/store/clickhouse.go: the statements of `newClickHouseStore`, the column types and the DDL.
use trino_log_sink.Base.{
  Bool, Bytes, List, [], bytes_eq, codes, false, if◌then◌else◌, join, leb_ℤ, map, pos, ℤ, ◌++◌,
  ◌||◌, ◌∷◌,
}
use trino_log_sink.Settings.{ClickHouse}
use trino_log_sink.Store.Identifier.{
  Column, SqlType, bigint, quote_ident, schema_columns, summary_columns, timestamp, varchar,
}

pub record ClickHouseStore : Type 0 where
  pub table : Bytes
  pub insert_stmt : Bytes
  pub summary_select : Bytes
  pub row_select : Bytes
  pub max_batch_bytes : ℤ

abbrev pub clickhouse_default_batch : ℤ
clickhouse_default_batch = pos 8_388_608

abbrev sep : Bytes
sep = codes ", "

unfoldable pub new_clickhouse_store : ClickHouse → ClickHouseStore
unfolding quote_ident join schema_columns summary_columns
new_clickhouse_store cfg = record {
  table = table;
  insert_stmt = codes "INSERT INTO " ++ table ++ codes " (" ++ columns ++ codes ")";
  summary_select =
      codes "SELECT "
      ++ join (map quote_ident summary_columns) sep
      ++ codes " FROM "
      ++ table
      ++ codes " FINAL";
  row_select = codes "SELECT " ++ columns ++ codes " FROM " ++ table ++ codes " FINAL";
  max_batch_bytes =
      if leb_ℤ cfg.max_batch_bytes (pos 0) then clickhouse_default_batch else cfg.max_batch_bytes;
}
  where
    table : Bytes
    table = quote_ident cfg.database ++ codes "." ++ quote_ident cfg.table

    columns : Bytes
    columns = join (map (λ c. quote_ident c.name) schema_columns) sep

one_of : Bytes → List Bytes → Bool
unfolding bytes_eq
one_of v [] = false
one_of v (k ∷ ks) = bytes_eq k v || one_of v ks

unfoldable pub clickhouse_nullable : List Bytes
clickhouse_nullable = codes "execution_start_time" ∷ codes "end_time" ∷ []

unfoldable pub clickhouse_low_cardinality : List Bytes
clickhouse_low_cardinality =
    codes "query_state"
    ∷ codes "query_type"
    ∷ codes "update_type"
    ∷ codes "error_code"
    ∷ codes "error_type"
    ∷ codes "catalog"
    ∷ codes "schema_name"
    ∷ codes "resource_group"
    ∷ codes "server_version"
    ∷ codes "environment"
    ∷ codes "user_name"
    ∷ []

abbrev pub clickhouse_timestamp_type : Bytes
clickhouse_timestamp_type = codes "DateTime64(6, 'UTC')"

base_type : SqlType → Bytes
base_type timestamp = clickhouse_timestamp_type
base_type bigint = codes "Int64"
base_type varchar = codes "String"

unfoldable pub clickhouse_type : Column → Bytes
unfolding base_type one_of clickhouse_nullable clickhouse_low_cardinality
clickhouse_type c =
    let t = base_type c.sql_type in
    if one_of c.name clickhouse_nullable
    then codes "Nullable(" ++ t ++ codes ")"
    else if one_of c.name clickhouse_low_cardinality
    then codes "LowCardinality(" ++ t ++ codes ")"
    else t

-- The map `clickhouseCodecs`, empty for a column without a codec.
unfoldable pub clickhouse_codec : Bytes → Bytes
unfolding one_of
clickhouse_codec name =
    if one_of name (codes "query_text" ∷ codes "error_message" ∷ codes "inputs_json" ∷ [])
    then codes " CODEC(ZSTD(3))"
    else if one_of name (codes "plan" ∷ codes "json_plan" ∷ [])
    then codes " CODEC(ZSTD(6))"
    else []

unfoldable pub clickhouse_column_ddl : Column → Bytes
unfolding quote_ident clickhouse_type clickhouse_codec
clickhouse_column_ddl c =
    quote_ident c.name ++ codes " " ++ clickhouse_type c ++ clickhouse_codec c.name

unfoldable pub database_ddl : ClickHouse → Bytes
unfolding quote_ident
database_ddl cfg = codes "CREATE DATABASE IF NOT EXISTS " ++ quote_ident cfg.database

abbrev comma_line : Bytes
comma_line = b',' ∷ 10 ∷ []

unfoldable pub table_ddl : ClickHouseStore → Bytes
unfolding quote_ident clickhouse_column_ddl schema_columns join
table_ddl s =
    codes "CREATE TABLE IF NOT EXISTS "
    ++ s.table
    ++ codes " ("
    ++ 10 ∷ []
    ++ join
        (map (λ c. codes "  " ++ clickhouse_column_ddl c) schema_columns
          ++ (codes "  "
              ++ quote_ident (codes "ingested_at")
              ++ codes " "
              ++ clickhouse_timestamp_type
              ++ codes " DEFAULT now64(6)")
            ∷ (codes "  INDEX qid_bf "
                ++ quote_ident (codes "query_id")
                ++ codes " TYPE bloom_filter(0.01) GRANULARITY 1")
            ∷ [])
        comma_line
    ++ 10 ∷ codes ")"
    ++ 10 ∷ codes "ENGINE = ReplacingMergeTree("
    ++ quote_ident (codes "ingested_at")
    ++ codes ")"
    ++ 10 ∷ codes "PARTITION BY toDate("
    ++ quote_ident (codes "create_time")
    ++ codes ")"
    ++ 10 ∷ codes "ORDER BY ("
    ++ quote_ident (codes "create_time")
    ++ codes ", "
    ++ quote_ident (codes "query_id")
    ++ codes ")"
    ++ 10 ∷ codes "SETTINGS non_replicated_deduplication_window = 1000"

unfoldable pub ddl_script : ClickHouse → Bytes
unfolding database_ddl table_ddl new_clickhouse_store
ddl_script cfg =
    database_ddl cfg ++ b';' ∷ 10 ∷ 10 ∷ table_ddl (new_clickhouse_store cfg) ++ b';' ∷ 10 ∷ []
