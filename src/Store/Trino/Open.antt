-- ===== src/Store/Trino/Open.antt =====
-- internal/store/trino.go: `NewTrino`, from the settings to the connection text and the store.
use trino_log_sink.Base.{
  Bytes, Option, codes, if◌then◌else◌, is_empty, itoa, ltb_ℤ, none, pos, some, ◌++◌,
}
use trino_log_sink.Event.{Duration}
use trino_log_sink.Settings.{Trino}
use trino_log_sink.Store.Errors.{wrapped}
use trino_log_sink.Store.Cursor.{Result, failed, ok}
use trino_log_sink.Store.Trino.Statements.{TrinoConfig, TrinoStore, build_statements}

-- `url.URL`, whose user has a password or not.
pub record ServerUri : Type 0 where
  pub scheme : Bytes
  pub host : Bytes
  pub user : Bytes
  pub password : Option Bytes

-- `trino.Config` with `DisableExplicitPrepare`.
pub record DriverConfig : Type 0 where
  pub server_uri : Bytes
  pub source : Bytes
  pub catalog : Bytes
  pub schema : Bytes
  pub access_token : Bytes
  pub query_timeout : Option Duration

unfoldable pub server_uri : Trino → ServerUri
unfolding itoa is_empty
server_uri cfg = record {
  scheme = if cfg.ssl then codes "https" else codes "http";
  host = cfg.host ++ codes ":" ++ itoa cfg.port;
  user = cfg.user;
  password = if is_empty cfg.password then none else some cfg.password;
}

-- The part of the settings that the statements are made of.
unfoldable pub table_config : Trino → TrinoConfig
table_config cfg = record {
  catalog = cfg.catalog;
  schema = cfg.schema;
  table = cfg.table;
  max_statement_bytes = cfg.max_statement_bytes;
  iceberg_location = cfg.iceberg_location;
}

-- `text` is `URL.String`, `format` is `FormatDSN`, and `connect` is `sql.Open` with the bounds of its pool.
module _ {D : Type 0} (text : ServerUri → Bytes) (format : DriverConfig → Result Bytes)
    (connect : Bytes → Result D) where
  unfoldable pub driver_config : Trino → DriverConfig
  unfolding server_uri
  driver_config cfg = record {
    server_uri = text (server_uri cfg);
    source = cfg.source;
    catalog = cfg.catalog;
    schema = cfg.schema;
    access_token = cfg.access_token;
    query_timeout = if ltb_ℤ (pos 0) cfg.query_timeout then some cfg.query_timeout else none;
  }

  opened : Trino → Result D → Result (D × TrinoStore)
  unfolding build_statements table_config
  opened cfg (failed e) = failed (wrapped (codes "open trino: ") e)
  opened cfg (ok db) = ok (db, build_statements (table_config cfg))

  with_dsn : Trino → Result Bytes → Result (D × TrinoStore)
  unfolding opened
  with_dsn cfg (failed e) = failed (wrapped (codes "build trino dsn: ") e)
  with_dsn cfg (ok dsn) = opened cfg (connect dsn)

  unfoldable pub new_trino : Trino → Result (D × TrinoStore)
  unfolding with_dsn driver_config
  new_trino cfg = with_dsn cfg (format (driver_config cfg))
