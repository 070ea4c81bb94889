-- ===== src/Main/Startup.antt =====
-- internal/store/factory.go, internal/observability/log.go, and `warnInsecureStore` and `rolesLabel` of
-- cmd/trino-query-log-sink/main.go.
use trino_log_sink.Base.{
  Bytes, List, [], bytes_eq, codes, if◌then◌else◌, is_empty, not, ◌&&◌, ◌++◌, ◌||◌, ◌∷◌,
}
use trino_log_sink.Settings.{ClickHouse, Service, Trino, backend_clickhouse, backend_trino}
use trino_log_sink.Store.Errors.{opaque}
use trino_log_sink.Store.Cursor.{Result, failed}
use trino_log_sink.Server.Routes.{Options}

-- `store.Open`, over the two constructors; `quoted` is the form `%q` of a text.
unfoldable pub open_backend :
    {B : Type 0}
    → (Bytes → Bytes)
    → (ClickHouse → Result B)
    → (Trino → Result B)
    → Bytes
    → Trino
    → ClickHouse
    → Result B
unfolding bytes_eq is_empty
open_backend quoted new_clickhouse new_trino backend trino clickhouse =
    if bytes_eq backend backend_clickhouse
    then new_clickhouse clickhouse
    else if bytes_eq backend backend_trino || is_empty backend
    then new_trino trino
    else failed (opaque (codes "unknown store backend " ++ quoted backend))

-- The warnings of `warnInsecureStore`.
unfoldable pub warn_insecure_store : Service → List Bytes
unfolding bytes_eq is_empty
warn_insecure_store cfg =
    if bytes_eq cfg.store_backend backend_clickhouse
    then (if not (is_empty cfg.clickhouse.password) && not cfg.clickhouse.tls
        then codes
            "CLICKHOUSE_PASSWORD is set but CLICKHOUSE_TLS is off; credentials travel in cleartext"
          ∷ []
        else [])
      ++ (if cfg.clickhouse.tls && cfg.clickhouse.tls_insecure
          then codes "CLICKHOUSE_TLS_INSECURE is on; the server certificate is not verified" ∷ []
          else [])
    else []

unfoldable pub roles_label : Options → Bytes
roles_label opts =
    if opts.ingest && opts.ui
    then codes "ingest,ui"
    else if opts.ingest
    then codes "ingest"
    else codes "ui"

-- The levels of log/slog, and that of `NewLogger`.
pub data Level : Type 0 where
  debug info warn error : Level

unfoldable pub logger_level : Bytes → Level
unfolding bytes_eq
logger_level level =
    if bytes_eq level (codes "debug")
    then debug
    else if bytes_eq level (codes "warn")
    then warn
    else if bytes_eq level (codes "error")
    then error
    else info
