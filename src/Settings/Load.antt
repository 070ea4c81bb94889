-- ===== src/Settings/Load.antt =====
-- internal/config/config.go: `Load` over an environment, and `StoreTarget`.
pub mod Usable
use trino_log_sink.Base.{
  Bytes, List, [], bytes_eq, codes, concat, false, if◌then◌else◌, inl, inr, itoa, pos, true, ℕ, ◌*◌,
  ◌++◌, ◌∷◌, ◌⊎◌,
}
use trino_log_sink.Event.{Duration}
use trino_log_sink.Settings.Env.{
  Environment, bool_errors, bool_val, duration, duration_errors, int_errors, int_val, str,
}
use trino_log_sink.Settings.{Service, backend_clickhouse, backend_trino}
use trino_log_sink.Settings.Checks.{validate}

module _ (e : Environment) where
  abbrev second : ℕ
  second = 1_000_000_000

  -- The literal of `Load`.
  unfoldable pub loaded : Service
  unfolding str int_val bool_val duration
  loaded = record {
    listen_addr = str e (codes "LISTEN_ADDR") (codes ":8080");
    store_backend = str e (codes "STORE_BACKEND") backend_trino;
    trino = record {
      host = str e (codes "TRINO_HOST") (codes "trino-cluster-trino.trino");
      port = int_val e (codes "TRINO_PORT") (pos 8080);
      user = str e (codes "TRINO_USER") (codes "trino-query-log");
      source = str e (codes "TRINO_SOURCE") (codes "trino-query-log");
      catalog = str e (codes "TRINO_CATALOG") (codes "gravitino");
      schema = str e (codes "TRINO_SCHEMA") (codes "observability");
      table = str e (codes "TRINO_TABLE") (codes "trino_query_log");
      password = str e (codes "TRINO_PASSWORD") [];
      access_token = str e (codes "TRINO_ACCESS_TOKEN") [];
      ssl = bool_val e (codes "TRINO_SSL") false;
      query_timeout = duration e (codes "TRINO_QUERY_TIMEOUT") (pos (60 * second));
      max_statement_bytes = int_val e (codes "MAX_STATEMENT_BYTES") (pos 700_000);
      iceberg_location = str e (codes "ICEBERG_LOCATION") [];
    };
    clickhouse = record {
      addr = str e (codes "CLICKHOUSE_ADDR") [];
      database = str e (codes "CLICKHOUSE_DATABASE") (codes "observability");
      table = str e (codes "CLICKHOUSE_TABLE") (codes "trino_query_log");
      user = str e (codes "CLICKHOUSE_USER") (codes "default");
      password = str e (codes "CLICKHOUSE_PASSWORD") [];
      tls = bool_val e (codes "CLICKHOUSE_TLS") false;
      tls_insecure = bool_val e (codes "CLICKHOUSE_TLS_INSECURE") false;
      tls_ca = str e (codes "CLICKHOUSE_TLS_CA") [];
      dial_timeout = duration e (codes "CLICKHOUSE_DIAL_TIMEOUT") (pos (5 * second));
      query_timeout = duration e (codes "CLICKHOUSE_QUERY_TIMEOUT") (pos (60 * second));
      max_batch_bytes = int_val e (codes "CLICKHOUSE_MAX_BATCH_BYTES") (pos 8_388_608);
    };
    cache = record {
      addr = str e (codes "REDIS_ADDR") [];
      password = str e (codes "REDIS_PASSWORD") [];
      db = int_val e (codes "REDIS_DB") (pos 0);
      tls = bool_val e (codes "REDIS_TLS") false;
      list_ttl = duration e (codes "CACHE_LIST_TTL") (pos (600 * second));
      query_ttl = duration e (codes "CACHE_QUERY_TTL") (pos (3600 * second));
      timeout = duration e (codes "CACHE_TIMEOUT") (pos 250_000_000);
    };
    readiness = record {
      mode = str e (codes "READINESS_MODE") (codes "connection");
      interval = duration e (codes "READINESS_INTERVAL") (pos (30 * second));
      fail_interval = duration e (codes "READINESS_FAIL_INTERVAL") (pos (30 * second));
      timeout = duration e (codes "READINESS_TIMEOUT") (pos (10 * second));
    };
    batch_size = int_val e (codes "BATCH_SIZE") (pos 100);
    flush_interval = duration e (codes "FLUSH_INTERVAL") (pos (5 * second));
    buffer_capacity = int_val e (codes "BUFFER_CAPACITY") (pos 10_000);
    flush_max_retries = int_val e (codes "FLUSH_MAX_RETRIES") (pos 3);
    flush_retry_backoff = duration e (codes "FLUSH_RETRY_BACKOFF") (pos second);
    flush_retry_max_backoff = duration e (codes "FLUSH_RETRY_MAX_BACKOFF") (pos (30 * second));
    max_field_bytes = int_val e (codes "MAX_FIELD_BYTES") (pos 300_000);
    plan_capture = str e (codes "PLAN_CAPTURE") (codes "slow_or_failed");
    plan_capture_min_wall = duration e (codes "PLAN_CAPTURE_MIN_WALL") (pos (10 * second));
    preview_bytes = int_val e (codes "QUERY_PREVIEW_BYTES") (pos 200);
    retention_days = int_val e (codes "RETENTION_DAYS") (pos 7);
    maintain_retention = str e (codes "MAINTAIN_RETENTION") (codes "7d");
    optimize_days = int_val e (codes "OPTIMIZE_DAYS") (pos 1);
    metrics_enabled = bool_val e (codes "METRICS_ENABLED") true;
    log_level = str e (codes "LOG_LEVEL") (codes "info");
  }

  -- `e.errs` behind the literal, in the order of its getters.
  unfoldable pub env_errors : List Bytes
  unfolding int_errors bool_errors duration_errors
  env_errors = concat (
      int_errors e (codes "TRINO_PORT")
      ∷ bool_errors e (codes "TRINO_SSL")
      ∷ duration_errors e (codes "TRINO_QUERY_TIMEOUT")
      ∷ int_errors e (codes "MAX_STATEMENT_BYTES")
      ∷ bool_errors e (codes "CLICKHOUSE_TLS")
      ∷ bool_errors e (codes "CLICKHOUSE_TLS_INSECURE")
      ∷ duration_errors e (codes "CLICKHOUSE_DIAL_TIMEOUT")
      ∷ duration_errors e (codes "CLICKHOUSE_QUERY_TIMEOUT")
      ∷ int_errors e (codes "CLICKHOUSE_MAX_BATCH_BYTES")
      ∷ int_errors e (codes "REDIS_DB")
      ∷ bool_errors e (codes "REDIS_TLS")
      ∷ duration_errors e (codes "CACHE_LIST_TTL")
      ∷ duration_errors e (codes "CACHE_QUERY_TTL")
      ∷ duration_errors e (codes "CACHE_TIMEOUT")
      ∷ duration_errors e (codes "READINESS_INTERVAL")
      ∷ duration_errors e (codes "READINESS_FAIL_INTERVAL")
      ∷ duration_errors e (codes "READINESS_TIMEOUT")
      ∷ int_errors e (codes "BATCH_SIZE")
      ∷ duration_errors e (codes "FLUSH_INTERVAL")
      ∷ int_errors e (codes "BUFFER_CAPACITY")
      ∷ int_errors e (codes "FLUSH_MAX_RETRIES")
      ∷ duration_errors e (codes "FLUSH_RETRY_BACKOFF")
      ∷ duration_errors e (codes "FLUSH_RETRY_MAX_BACKOFF")
      ∷ int_errors e (codes "MAX_FIELD_BYTES")
      ∷ duration_errors e (codes "PLAN_CAPTURE_MIN_WALL")
      ∷ int_errors e (codes "QUERY_PREVIEW_BYTES")
      ∷ int_errors e (codes "RETENTION_DAYS")
      ∷ int_errors e (codes "OPTIMIZE_DAYS")
      ∷ bool_errors e (codes "METRICS_ENABLED")
      ∷ [])

  accepted : Service → List Bytes → List Bytes ⊎ Service
  accepted cfg [] = inr cfg
  accepted cfg (x ∷ xs) = inl (x ∷ xs)

  -- The errors, or the configuration.
  unfoldable pub load : List Bytes ⊎ Service
  unfolding accepted env_errors loaded validate
  load = accepted loaded (env_errors ++ validate loaded)

-- `StoreTarget`.
unfoldable pub store_target : Service → Bytes
unfolding bytes_eq itoa
store_target c =
    if bytes_eq c.store_backend backend_clickhouse
    then codes "clickhouse://"
      ++ c.clickhouse.addr
      ++ codes "/"
      ++ c.clickhouse.database
      ++ codes "."
      ++ c.clickhouse.table
    else codes "trino://"
      ++ c.trino.host
      ++ codes ":"
      ++ itoa c.trino.port
      ++ codes "/"
      ++ c.trino.catalog
      ++ codes "."
      ++ c.trino.schema
      ++ codes "."
      ++ c.trino.table
