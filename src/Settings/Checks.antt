-- ===== src/Settings/Checks.antt =====
-- internal/config/config.go: `validate`, as the list of its messages, and the configuration of the buffer
-- that cmd/trino-query-log-sink/main.go builds.
pub mod Accepted
use trino_log_sink.Base.{
  Bool, Bytes, List, [], arith, bytes_eq, codes, digits, false, if◌then◌else◌, is_empty, leb_ℤ,
  ltb_ℤ, not, pos, pos_part, refl, set, true, ◌&&◌, ◌||◌, ◌∷◌, ◌≡◌,
}
use trino_log_sink.Event.{Duration}
use trino_log_sink.Ingest.Flush.{Config, with_defaults}
use trino_log_sink.Settings.{
  Cache, ClickHouse, Service, Trino, backend_clickhouse, backend_trino, enabled,
  min_clickhouse_batch_bytes, store_query_timeout,
}
use trino_log_sink.Settings.HostPort.{is_identifier, valid_host_port}

-- The closure `add`, with the messages behind it.
add : Bool → Bytes → List Bytes → List Bytes
add cond msg errs = if cond then msg ∷ errs else errs

check_trino : Trino → List Bytes → List Bytes
unfolding add is_empty
check_trino t rest = add (is_empty t.host) (codes "TRINO_HOST must not be empty") (
    add (ltb_ℤ t.port (pos 1) || ltb_ℤ (pos 65_535) t.port) (codes "TRINO_PORT must be in 1..65535")
      (add (is_empty t.user) (codes "TRINO_USER must not be empty") (
        add (is_empty t.source) (codes "TRINO_SOURCE must not be empty") (
          add (is_empty t.catalog) (codes "TRINO_CATALOG must not be empty") (
            add (is_empty t.schema) (codes "TRINO_SCHEMA must not be empty")
              (add (is_empty t.table) (codes "TRINO_TABLE must not be empty") rest))))))

check_buffer : Service → List Bytes → List Bytes
unfolding add
check_buffer c rest = add (ltb_ℤ c.batch_size (pos 1)) (codes "BATCH_SIZE must be >= 1") (
    add (leb_ℤ c.flush_interval (pos 0)) (codes "FLUSH_INTERVAL must be > 0") (
      add (ltb_ℤ c.buffer_capacity (pos 1)) (codes "BUFFER_CAPACITY must be >= 1") (
        add (ltb_ℤ c.flush_max_retries (pos 0)) (codes "FLUSH_MAX_RETRIES must be >= 0") (
          add (leb_ℤ c.flush_retry_backoff (pos 0)) (codes "FLUSH_RETRY_BACKOFF must be > 0") (
            add (ltb_ℤ c.flush_retry_max_backoff c.flush_retry_backoff)
              (codes "FLUSH_RETRY_MAX_BACKOFF must be >= FLUSH_RETRY_BACKOFF")
              (add (ltb_ℤ c.trino.max_statement_bytes (pos 16_384))
                (codes "MAX_STATEMENT_BYTES must be >= 16384")
                (add (ltb_ℤ c.max_field_bytes (pos 1024)) (codes "MAX_FIELD_BYTES must be >= 1024")
                  rest)))))))

check_times : Service → List Bytes → List Bytes
unfolding add
check_times c rest = add (ltb_ℤ c.retention_days (pos 0)) (codes "RETENTION_DAYS must be >= 0") (
    add (ltb_ℤ c.optimize_days (pos 0)) (codes "OPTIMIZE_DAYS must be >= 0") (
      add (leb_ℤ c.readiness.interval (pos 0)) (codes "READINESS_INTERVAL must be > 0") (
        add (leb_ℤ c.readiness.fail_interval (pos 0)) (codes "READINESS_FAIL_INTERVAL must be > 0")
          (add (leb_ℤ c.readiness.timeout (pos 0)) (codes "READINESS_TIMEOUT must be > 0") (
            add (ltb_ℤ c.plan_capture_min_wall (pos 0)) (codes "PLAN_CAPTURE_MIN_WALL must be >= 0")
              (add (ltb_ℤ c.preview_bytes (pos 1)) (codes "QUERY_PREVIEW_BYTES must be >= 1")
                rest))))))

check_clickhouse : ClickHouse → List Bytes → List Bytes
unfolding add is_empty valid_host_port is_identifier
check_clickhouse ch rest =
    add (not (valid_host_port ch.addr))
      (codes "CLICKHOUSE_ADDR must be set to host:port when STORE_BACKEND=clickhouse")
      (add (not (is_identifier ch.database))
        (codes "CLICKHOUSE_DATABASE must be a plain identifier (letters, digits, underscore)")
        (add (not (is_identifier ch.table))
          (codes "CLICKHOUSE_TABLE must be a plain identifier (letters, digits, underscore)")
          (add (is_empty ch.user) (codes "CLICKHOUSE_USER must not be empty") (
            add (leb_ℤ ch.dial_timeout (pos 0)) (codes "CLICKHOUSE_DIAL_TIMEOUT must be > 0") (
              add (leb_ℤ ch.query_timeout (pos 0)) (codes "CLICKHOUSE_QUERY_TIMEOUT must be > 0") (
                add (ltb_ℤ ch.max_batch_bytes min_clickhouse_batch_bytes)
                  (codes "CLICKHOUSE_MAX_BATCH_BYTES must be >= 1048576")
                  (add (ch.tls_insecure && not ch.tls)
                    (codes "CLICKHOUSE_TLS_INSECURE requires CLICKHOUSE_TLS=true")
                    (add (not (is_empty ch.tls_ca) && not ch.tls)
                      (codes "CLICKHOUSE_TLS_CA requires CLICKHOUSE_TLS=true") rest))))))))

check_backend : Service → List Bytes → List Bytes
unfolding check_clickhouse bytes_eq
check_backend c rest =
    if bytes_eq c.store_backend backend_trino
    then rest
    else if bytes_eq c.store_backend backend_clickhouse
    then check_clickhouse c.clickhouse rest
    else codes "STORE_BACKEND must be one of trino, clickhouse" ∷ rest

one_of : Bytes → List Bytes → Bool
unfolding bytes_eq
one_of v [] = false
one_of v (k ∷ ks) = bytes_eq v k || one_of v ks

check_modes : Service → List Bytes → List Bytes
unfolding add one_of
check_modes c rest =
    add (not (one_of c.readiness.mode (codes "connection" ∷ codes "table" ∷ [])))
      (codes "READINESS_MODE must be one of connection, table")
      (add (not (one_of c.plan_capture (codes "all" ∷ codes "slow_or_failed" ∷ codes "none" ∷ [])))
        (codes "PLAN_CAPTURE must be one of all, slow_or_failed, none") rest)

check_cache : Cache → List Bytes → List Bytes
unfolding add enabled
check_cache c rest = add (enabled c && ltb_ℤ c.db (pos 0)) (codes "REDIS_DB must be >= 0") (
    add (enabled c && leb_ℤ c.list_ttl (pos 0))
      (codes "CACHE_LIST_TTL must be > 0 when REDIS_ADDR is set")
      (add (enabled c && leb_ℤ c.query_ttl (pos 0))
        (codes "CACHE_QUERY_TTL must be > 0 when REDIS_ADDR is set")
        (add (enabled c && leb_ℤ c.timeout (pos 0))
          (codes "CACHE_TIMEOUT must be > 0 when REDIS_ADDR is set") rest)))

check_log_level : Bytes → List Bytes
unfolding add one_of
check_log_level level =
    add (not (one_of level (codes "debug" ∷ codes "info" ∷ codes "warn" ∷ codes "error" ∷ [])))
      (codes "LOG_LEVEL must be one of debug, info, warn, error") []

unfoldable pub validate : Service → List Bytes
unfolding check_trino check_buffer check_times check_backend check_modes check_cache check_log_level
validate c = check_trino c.trino (
    check_buffer c (
      check_times c
        (check_backend c (check_modes c (check_cache c.cache (check_log_level c.log_level))))))

-- The configuration that `runServer` gives to `ingest.New`.
unfoldable pub buffer_config : Service → Config
unfolding store_query_timeout
buffer_config c = record {
  batch_size = pos_part c.batch_size;
  flush_interval = c.flush_interval;
  buffer_capacity = c.buffer_capacity;
  max_retries = c.flush_max_retries;
  flush_timeout = store_query_timeout c;
  retry_backoff = c.flush_retry_backoff;
  retry_max_backoff = c.flush_retry_max_backoff;
}
