-- ===== src/Server/Metrics/Text.antt =====
-- internal/observability/metrics.go: `ServeHTTP`, the text of the counters and of the buffer's gauges.
use trino_log_sink.Base.{
  Bytes, List, Option, [], codes, concat, itoa, map, negsuc, none, pos, some, suc, ℤ, ◌++◌, ◌-ℤ◌,
  ◌/◌, ◌∷◌,
}
use trino_log_sink.Server.Metrics.{Metrics}

pub record BufferStats : Type 0 where
  pub depth : ℤ
  pub capacity : ℤ
  pub last_flush_unix_ms : ℤ
  pub last_flush_duration_ms : ℤ

-- A division by 1000 that is cut off towards zero.
div_1000 : ℤ → ℤ
div_1000 (pos n) = pos (n / 1000)
div_1000 (negsuc n) = pos 0 -ℤ pos (suc n / 1000)

abbrev newline : Bytes
newline = 10 ∷ []

-- The three lines of a metric.
unfoldable pub metric_lines : Bytes → Bytes × Bytes × ℤ → Bytes
unfolding itoa
metric_lines kind (name, help, val) =
    codes "# HELP trino_query_log_"
    ++ name
    ++ codes " "
    ++ help
    ++ newline
    ++ codes "# TYPE trino_query_log_"
    ++ name
    ++ codes " "
    ++ kind
    ++ newline
    ++ codes "trino_query_log_"
    ++ name
    ++ codes " "
    ++ itoa val
    ++ newline

unfoldable pub counters : Metrics → List (Bytes × Bytes × ℤ)
counters m =
    (
      codes "events_received_total",
      codes "Query completed events received on /ingest.",
      m.events_received,
    )
    ∷ (
      codes "events_invalid_total",
      codes "Events skipped because they failed validation.",
      m.events_invalid,
    )
    ∷ (
      codes "events_suppressed_total",
      codes "Events dropped because their source matched this service.",
      m.events_suppressed,
    )
    ∷ (
      codes "rows_enqueued_total",
      codes "Rows accepted into the in-memory buffer.",
      m.rows_enqueued,
    )
    ∷ (
      codes "events_dropped_total",
      codes "Rows dropped: buffer full or closing, or batch abandoned after flush failures.",
      m.events_dropped,
    )
    ∷ (
      codes "batches_flushed_total",
      codes "Batches successfully written to the store.",
      m.batches_flushed,
    )
    ∷ (codes "rows_flushed_total", codes "Rows successfully written to the store.", m.rows_flushed)
    ∷ (
      codes "flush_failures_total",
      codes "Batches dropped after a flush failure (retries exhausted or non-retryable).",
      m.flush_failures,
    )
    ∷ (
      codes "flush_non_retryable_total",
      codes
          "Batches dropped without retrying because the store reported a deterministic error (missing table, auth failure, schema mismatch).",
      m.flush_non_retry,
    )
    ∷ (codes "cache_hits_total", codes "Read-through cache hits.", m.cache_hits)
    ∷ (codes "cache_misses_total", codes "Read-through cache misses.", m.cache_misses)
    ∷ (
      codes "cache_errors_total",
      codes "Read-through cache backend or decode errors.",
      m.cache_errors,
    )
    ∷ []

unfoldable pub gauges : BufferStats → List (Bytes × Bytes × ℤ)
unfolding div_1000
gauges s =
    (codes "buffer_depth", codes "Rows currently queued in the in-memory buffer.", s.depth)
    ∷ (codes "buffer_capacity", codes "Maximum rows the in-memory buffer can hold.", s.capacity)
    ∷ (
      codes "last_flush_timestamp_seconds",
      codes "Unix time of the last successful flush.",
      div_1000 s.last_flush_unix_ms,
    )
    ∷ (
      codes "last_flush_duration_ms",
      codes "Duration of the last successful flush in milliseconds.",
      s.last_flush_duration_ms,
    )
    ∷ []

-- `ServeHTTP`; the source of the gauges is set when events are ingested.
unfoldable pub serve_http : Metrics → Option BufferStats → Bytes
unfolding metric_lines counters gauges
serve_http m source =
    let text = concat (map (metric_lines (codes "counter")) (counters m)) in
    elim source [
      | none ↦ text
      | some s ↦ text ++ concat (map (metric_lines (codes "gauge")) (gauges s))
    ]
