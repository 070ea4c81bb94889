-- ===== src/Tests/Services.antt =====
-- A configuration with the defaults of `Load`, which is accepted.
use trino_log_sink.Settings.{Service, store_query_timeout}
use trino_log_sink.Settings.Checks as Checks
use trino_log_sink.Base.{[], arith, codes, false, pos, refl, true, ◌≡◌, ◌≤ℤ◌}

-- The defaults of `Load`.
abbrev pub service : Service
service = record {
  listen_addr = codes ":8080";
  store_backend = codes "trino";
  trino = record {
    host = codes "trino";
    port = pos 8080;
    user = codes "trino-query-log";
    source = codes "trino-query-log";
    catalog = codes "gravitino";
    schema = codes "observability";
    table = codes "trino_query_log";
    password = [];
    access_token = [];
    ssl = false;
    query_timeout = pos 60_000_000_000;
    max_statement_bytes = pos 700_000;
    iceberg_location = [];
  };
  clickhouse = record {
    addr = [];
    database = codes "observability";
    table = codes "trino_query_log";
    user = codes "default";
    password = [];
    tls = false;
    tls_insecure = false;
    tls_ca = [];
    dial_timeout = pos 5_000_000_000;
    query_timeout = pos 60_000_000_000;
    max_batch_bytes = pos 8_388_608;
  };
  cache = record {
    addr = [];
    password = [];
    db = pos 0;
    tls = false;
    list_ttl = pos 600_000_000_000;
    query_ttl = pos 3_600_000_000_000;
    timeout = pos 250_000_000;
  };
  readiness = record {
    mode = codes "connection";
    interval = pos 30_000_000_000;
    fail_interval = pos 30_000_000_000;
    timeout = pos 10_000_000_000;
  };
  batch_size = pos 100;
  flush_interval = pos 5_000_000_000;
  buffer_capacity = pos 10_000;
  flush_max_retries = pos 3;
  flush_retry_backoff = pos 1_000_000_000;
  flush_retry_max_backoff = pos 30_000_000_000;
  max_field_bytes = pos 300_000;
  plan_capture = codes "slow_or_failed";
  plan_capture_min_wall = pos 10_000_000_000;
  preview_bytes = pos 200;
  retention_days = pos 7;
  maintain_retention = codes "7d";
  optimize_days = pos 1;
  metrics_enabled = true;
  log_level = codes "info";
}

service-accepted : Checks.validate service ≡ []
unfolding Checks.validate
service-accepted = refl

service-timeout : pos 1 ≤ℤ store_query_timeout service
unfolding store_query_timeout
service-timeout = omega arith
