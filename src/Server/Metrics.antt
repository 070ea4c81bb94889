-- ===== src/Server/Metrics.antt =====
-- internal/observability/metrics.go: the counters, which are atomic int64 values.
pub mod Text
use trino_log_sink.Ingest.Flush.{
  Call, dropped, enqueued, flush_failed, flush_non_retryable, flushed,
}
use trino_log_sink.Store.Cache.{CacheCall, cache_error, cache_hit, cache_miss}
use trino_log_sink.Base.{pos, wrap_int64, ℤ, ◌+ℤ◌, ℕ}

pub record Metrics : Type 0 where
  pub events_received : ℤ
  pub events_invalid : ℤ
  pub events_suppressed : ℤ
  pub rows_enqueued : ℤ
  pub events_dropped : ℤ
  pub batches_flushed : ℤ
  pub rows_flushed : ℤ
  pub flush_failures : ℤ
  pub flush_non_retry : ℤ
  pub cache_hits : ℤ
  pub cache_misses : ℤ
  pub cache_errors : ℤ

-- `Int64.Add`.
unfoldable pub add_int64 : ℤ → ℤ → ℤ
add_int64 a n = wrap_int64 (a +ℤ n)

unfoldable pub received_event : Metrics → Metrics
unfolding add_int64
received_event m = record m { events_received = add_int64 m.events_received (pos 1) }

unfoldable pub invalid_event : Metrics → Metrics
unfolding add_int64
invalid_event m = record m { events_invalid = add_int64 m.events_invalid (pos 1) }

unfoldable pub suppressed_event : Metrics → Metrics
unfolding add_int64
suppressed_event m = record m { events_suppressed = add_int64 m.events_suppressed (pos 1) }

unfoldable pub dropped_rows : Metrics → ℕ → Metrics
unfolding add_int64
dropped_rows m n = record m { events_dropped = add_int64 m.events_dropped (pos n) }

unfoldable pub flushed_batch : Metrics → ℕ → Metrics
unfolding add_int64
flushed_batch m n = record m {
  batches_flushed = add_int64 m.batches_flushed (pos 1);
  rows_flushed = add_int64 m.rows_flushed (pos n);
}

-- The counters behind a call of the buffer.
unfoldable pub buffer_call : Metrics → Call → Metrics
unfolding add_int64 dropped_rows flushed_batch
buffer_call m enqueued = record m { rows_enqueued = add_int64 m.rows_enqueued (pos 1) }
buffer_call m flush_failed = record m { flush_failures = add_int64 m.flush_failures (pos 1) }
buffer_call m flush_non_retryable = record m {
  flush_non_retry = add_int64 m.flush_non_retry (pos 1);
}
buffer_call m (dropped n) = dropped_rows m n
buffer_call m (flushed n) = flushed_batch m n

-- The counters behind a call of the cached store.
unfoldable pub cache_call : Metrics → CacheCall → Metrics
unfolding add_int64
cache_call m cache_hit = record m { cache_hits = add_int64 m.cache_hits (pos 1) }
cache_call m cache_miss = record m { cache_misses = add_int64 m.cache_misses (pos 1) }
cache_call m cache_error = record m { cache_errors = add_int64 m.cache_errors (pos 1) }
