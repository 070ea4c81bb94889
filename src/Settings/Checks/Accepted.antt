-- ===== src/Settings/Checks/Accepted.antt =====
-- What an accepted configuration is good for.
use trino_log_sink.Base.{Bytes, List, [], arith, false, leb_ℤ, ltb_ℤ, pos, ◌≡◌, ◌≤ℤ◌}
use trino_log_sink.Ingest.Flush.{with_defaults}
use trino_log_sink.Settings.{Service, Trino, store_query_timeout}
use trino_log_sink.Settings.Checks.{buffer_config, check_buffer, check_trino, validate}

check_trino-nil : (t : Trino) (rest : List Bytes) → check_trino t rest ≡ [] → rest ≡ []
unfolding check_trino
check_trino-nil t rest h = ground arith

-- What the buffer, the truncation and the statements rely on.
pub record IsUsable (c : Service) : Type 0 where
  pub batch_size_pos : pos 1 ≤ℤ c.batch_size
  pub flush_interval_pos : pos 1 ≤ℤ c.flush_interval
  pub buffer_capacity_pos : pos 1 ≤ℤ c.buffer_capacity
  pub max_retries_nonneg : pos 0 ≤ℤ c.flush_max_retries
  pub backoff_pos : pos 1 ≤ℤ c.flush_retry_backoff
  pub backoff_le : c.flush_retry_backoff ≤ℤ c.flush_retry_max_backoff
  pub statement_room : pos 16_384 ≤ℤ c.trino.max_statement_bytes
  pub field_room : pos 1024 ≤ℤ c.max_field_bytes

check_buffer-IsUsable : (c : Service) (rest : List Bytes) → check_buffer c rest ≡ [] → IsUsable c
unfolding check_buffer
check_buffer-IsUsable c rest h = record {
  batch_size_pos = ground arith;
  flush_interval_pos = ground arith;
  buffer_capacity_pos = ground arith;
  max_retries_nonneg = ground arith;
  backoff_pos = ground arith;
  backoff_le = ground arith;
  statement_room = ground arith;
  field_room = ground arith;
}

-- A configuration that `validate` has nothing to say against has a positive batch size, flush interval,
-- capacity and backoff, no negative number of retries, a maximal backoff not below the first, at
-- least 16384 bytes for a statement and 1024 for a field.
pub validate-IsUsable : (c : Service) → validate c ≡ [] → IsUsable c
unfolding validate
validate-IsUsable c h = check_buffer-IsUsable c _ (check_trino-nil c.trino _ h)

-- The defaults of `ingest.New` change nothing in the configuration of the buffer that an accepted
-- configuration with a positive query timeout gives.
pub with_defaults-buffer_config :
    (c : Service)
    → validate c ≡ []
    → pos 1 ≤ℤ store_query_timeout c
    → with_defaults (buffer_config c) ≡ buffer_config c
unfolding with_defaults buffer_config
with_defaults-buffer_config c h k =
    let u = validate-IsUsable c h in
    let cap : ltb_ℤ c.buffer_capacity (pos 1) ≡ false = ground (arith, u.buffer_capacity_pos) in
    let time_out : leb_ℤ (store_query_timeout c) (pos 0) ≡ false = ground arith in
    let first : leb_ℤ c.flush_retry_backoff (pos 0) ≡ false = ground (arith, u.backoff_pos) in
    let largest : ltb_ℤ c.flush_retry_max_backoff c.flush_retry_backoff ≡ false =
      ground (arith, u.backoff_le) in
    rw (cap, time_out, first, largest)
