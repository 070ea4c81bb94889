-- ===== src/Settings.antt =====
-- internal/config/config.go: the configuration and `validate`.
pub mod HostPort
pub mod Checks
pub mod Env
pub mod Load
use trino_log_sink.Base.{Bool, Bytes, bytes_eq, codes, if◌then◌else◌, is_empty, not, pos, ℤ}
use trino_log_sink.Event.{Duration}

pub record Trino : Type 0 where
  pub host : Bytes
  pub port : ℤ
  pub user : Bytes
  pub source : Bytes
  pub catalog : Bytes
  pub schema : Bytes
  pub table : Bytes
  pub password : Bytes
  pub access_token : Bytes
  pub ssl : Bool
  pub query_timeout : Duration
  pub max_statement_bytes : ℤ
  pub iceberg_location : Bytes

pub record ClickHouse : Type 0 where
  pub addr : Bytes
  pub database : Bytes
  pub table : Bytes
  pub user : Bytes
  pub password : Bytes
  pub tls : Bool
  pub tls_insecure : Bool
  pub tls_ca : Bytes
  pub dial_timeout : Duration
  pub query_timeout : Duration
  pub max_batch_bytes : ℤ

pub record Cache : Type 0 where
  pub addr : Bytes
  pub password : Bytes
  pub db : ℤ
  pub tls : Bool
  pub list_ttl : Duration
  pub query_ttl : Duration
  pub timeout : Duration

pub record Readiness : Type 0 where
  pub mode : Bytes
  pub interval : Duration
  pub fail_interval : Duration
  pub timeout : Duration

-- `config.Config`.
pub record Service : Type 0 where
  pub listen_addr : Bytes
  pub store_backend : Bytes
  pub trino : Trino
  pub clickhouse : ClickHouse
  pub cache : Cache
  pub readiness : Readiness
  pub batch_size : ℤ
  pub flush_interval : Duration
  pub buffer_capacity : ℤ
  pub flush_max_retries : ℤ
  pub flush_retry_backoff : Duration
  pub flush_retry_max_backoff : Duration
  pub max_field_bytes : ℤ
  pub plan_capture : Bytes
  pub plan_capture_min_wall : Duration
  pub preview_bytes : ℤ
  pub retention_days : ℤ
  pub maintain_retention : Bytes
  pub optimize_days : ℤ
  pub metrics_enabled : Bool
  pub log_level : Bytes

abbrev pub backend_trino : Bytes
backend_trino = codes "trino"

abbrev pub backend_clickhouse : Bytes
backend_clickhouse = codes "clickhouse"

abbrev pub min_clickhouse_batch_bytes : ℤ
min_clickhouse_batch_bytes = pos 1_048_576

unfoldable pub enabled : Cache → Bool
unfolding is_empty
enabled c = not (is_empty c.addr)

unfoldable pub store_query_timeout : Service → Duration
unfolding bytes_eq
store_query_timeout c =
    if bytes_eq c.store_backend backend_clickhouse
    then c.clickhouse.query_timeout
    else c.trino.query_timeout
