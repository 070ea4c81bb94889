-- ===== src/Tests/Serving.antt =====
-- The theorems on the ingest handler and on the parameters of ClickHouse.
use trino_log_sink.Base.{
  Bytes, List, Option, [], arith, bytes_eq, codes, false, map, none, pos, refl, some, wrap_int64,
  ◌+ℤ◌, ◌∷◌, ◌≡◌,
}
use trino_log_sink.Event.{Event, InputMetadata, Statistics, source_value, validate}
use trino_log_sink.Store.FromEvent.{apply_plan_policy, keeps_plans, row_from_event, with_preview}
use trino_log_sink.Store.Trino.Delivery.{persisted, trino_env}
use trino_log_sink.Ingest.Dedupe.{dedupe}
use trino_log_sink.Ingest.Flush.{flush}
use trino_log_sink.Ingest.Flush.Delivery.{Outcome}
use trino_log_sink.Server.Metrics.{Metrics, invalid_event, received_event, suppressed_event}
use trino_log_sink.Server.Ingest.{Settings, serve, stored_row}
use trino_log_sink.Server.Ingest.Served.{Result, serve-Served, with_counts}
use trino_log_sink.Server.Ingest.Delivery.{flush_stored-Outcome}
use trino_log_sink.Store.Truncate.{truncate, truncate_fields, truncate_large, truncate_small}
use trino_log_sink.Tests.Samples.{
  buffer_config, flaky_exec, flaky_exec-Database, flaky_table, trino_config, trino_store,
}

abbrev statistics : Statistics
statistics = record {
  cpu_time = pos 3_500_000;
  wall_time = pos 9_000_000;
  queued_time = pos 0;
  analysis_time = pos 0;
  planning_time = pos 0;
  execution_time = pos 0;
  peak_user_memory_bytes = pos 64;
  peak_task_total_memory = pos 64;
  physical_input_bytes = pos 0;
  physical_input_rows = pos 0;
  processed_input_bytes = pos 0;
  processed_input_rows = pos 0;
  output_bytes = pos 0;
  output_rows = pos 1;
  written_bytes = pos 0;
  written_rows = pos 0;
  completed_splits = pos 1;
}

abbrev pub event : Event
event = record {
  metadata = record {
    query_id = codes "20240229_1";
    transaction_id = none;
    query = codes "SELECT  1";
    update_type = none;
    prepared_query = none;
    query_state = codes "FINISHED";
    uri = [];
    plan = some (codes "Output[1]");
    json_plan = none;
  };
  statistics = statistics;
  context = record {
    user = codes "alice";
    principal = none;
    source = some (codes "cli");
    catalog = none;
    schema = none;
    client_tags = codes "a" ∷ codes "b" ∷ [];
    resource_group_id = codes "global" ∷ [];
    query_type = some (codes "SELECT");
    server_version = codes "455";
    environment = codes "test";
  };
  io_metadata = record { inputs = [] };
  failure_info = none;
  create_time = some (pos 5);
  execution_start_time = none;
  end_time = none;
}

abbrev settings : Settings
settings = record {
  source = codes "trino-query-log";
  plan_policy = record { capture = codes "slow_or_failed"; min_wall = pos 10_000_000_000 };
  preview_bytes = pos 200;
  max_field_bytes = pos 300_000;
}

abbrev pub marshal : List InputMetadata → Option Bytes
marshal inputs = some (codes "[]")

abbrev metrics : Metrics
metrics = record {
  events_received = pos 0;
  events_invalid = pos 0;
  events_suppressed = pos 0;
  rows_enqueued = pos 0;
  events_dropped = pos 0;
  batches_flushed = pos 0;
  rows_flushed = pos 0;
  flush_failures = pos 0;
  flush_non_retry = pos 0;
  cache_hits = pos 0;
  cache_misses = pos 0;
  cache_errors = pos 0;
}

stored_preview : (stored_row marshal settings event).query_preview ≡ codes "SELECT 1"
unfolding stored_row row_from_event apply_plan_policy with_preview truncate_fields truncate_large
    truncate_small truncate
stored_preview = refl

-- An event of another source and one of this service's own, a body that is none, and an event without an id.
abbrev requests : List (Option Event)
requests =
    some event
    ∷ some (record event { context = record event.context { source = some settings.source } })
    ∷ none
    ∷ some (record event { metadata = record event.metadata { query_id = [] } })
    ∷ []

serve-Served_example :
    Result marshal settings metrics 0 0 0 requests
      (serve marshal settings (with_counts metrics 0 0 0) requests)
serve-Served_example =
    serve-Served marshal settings 300_000 refl (omega arith) metrics 0 0 0 requests (omega arith)
      (omega arith) (omega arith)

serve_example :
    (serve marshal settings (with_counts metrics 0 0 0) requests).0 ≡ with_counts metrics 4 2 1
unfolding serve received_event invalid_event suppressed_event validate source_value bytes_eq
    wrap_int64 ◌+ℤ◌
serve_example = refl

event-plans : keeps_plans (row_from_event marshal event) settings.plan_policy ≡ false
unfolding keeps_plans row_from_event
event-plans = refl

flush_stored-Outcome_example :
    Outcome flaky_table
      (map
        (persisted trino_store)
        (dedupe (map (stored_row marshal settings) (event ∷ event ∷ []))))
      (record {
        world = (1, []);
        last_flush_unix_ms = pos 0;
        last_flush_duration_ms = pos 0;
        calls = [];
      })
      (flush
        (trino_env trino_store flaky_exec
          (λ w. false)
          (λ w. pos 0)
          (λ v w. pos 0)
          (λ d w. w)
          (λ w. w))
        buffer_config
        (map (stored_row marshal settings) (event ∷ event ∷ []))
        (record {
          world = (1, []);
          last_flush_unix_ms = pos 0;
          last_flush_duration_ms = pos 0;
          calls = [];
        }))
flush_stored-Outcome_example =
    flush_stored-Outcome marshal settings trino_config flaky_exec flaky_table (λ w. false)
      (λ w. pos 0) (λ v w. pos 0) (λ d w. w) (λ w. w) flaky_exec-Database (λ d w. refl) (λ w. refl)
      300_000 refl (omega arith) (omega arith) buffer_config (event ∷ event ∷ [])
      (record {
        world = (1, []);
        last_flush_unix_ms = pos 0;
        last_flush_duration_ms = pos 0;
        calls = [];
      })
