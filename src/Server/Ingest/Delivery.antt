-- ===== src/Server/Ingest/Delivery.antt =====
-- From accepted events to Trino's table: the handler, the buffer and the Trino backend together.
use trino_log_sink.Base.{All, Bool, Bytes, List, Option, [], map, pos, ℕ, ℤ, ◌<◌, ◌^◌, ◌∷◌, ◌≡◌}
use trino_log_sink.Event.{Duration, Event, InputMetadata}
use trino_log_sink.Store.Row.{Arg}
use trino_log_sink.Store.Errors.{Error}
use trino_log_sink.Store.Trino.Statements.{TrinoConfig, build_statements}
use trino_log_sink.Store.Trino.Delivery.{
  Database, IsWithinBudget, clamped-IsWithinBudget, persisted, trino_env, trino_env-Contract,
}
use trino_log_sink.Ingest.Dedupe.{dedupe}
use trino_log_sink.Ingest.Dedupe.Elements.{dedupe-All}
use trino_log_sink.Ingest.Flush.{Config, Flushing, flush}
use trino_log_sink.Ingest.Flush.Delivery.{Outcome, flush-Outcome}
use trino_log_sink.Server.Ingest.{Settings, stored_row}
use trino_log_sink.Server.Ingest.Rows.{stored_row-IsAddressable}

module _ (marshal : List InputMetadata → Option Bytes) (cfg : Settings)
    (trino_cfg : TrinoConfig) where
  All-stored :
      (n : ℕ)
      → cfg.max_field_bytes ≡ pos n
      → 0 < n
      → n < 2 ^ 47
      → (events : List Event)
      → All (IsWithinBudget (build_statements trino_cfg)) (map (stored_row marshal cfg) events)
  All-stored n h p q [] = tt
  All-stored n h p q (e ∷ events) = (
    clamped-IsWithinBudget trino_cfg (stored_row marshal cfg e)
        (stored_row-IsAddressable marshal cfg e n h p q),
    All-stored n h p q events,
  )

  -- A flush of the rows of any accepted events to Trino, over a database with atomic INSERT statements
  -- that waiting and cancelling do not change, with `MAX_FIELD_BYTES` positive and below 2 ^ 47: the
  -- table gains a prefix of the deduplicated rows, each as it is clamped, in their order and none
  -- twice; that prefix is reported as flushed and the rest as dropped, and a failure is reported
  -- unless the prefix is the whole.
  pub flush_stored-Outcome :
      {W : Type 0} (exec : W → Bytes → List Arg → W × Option Error) (stored : W → List (List Arg))
      (canceled : W → Bool) (unix_ms : W → ℤ) (elapsed_ms : W → W → ℤ) (wait : Duration → W → W)
      (cancel : W → W)
      → Database (build_statements trino_cfg) exec stored
      → ((d : Duration) (w : W) → stored (wait d w) ≡ stored w)
      → ((w : W) → stored (cancel w) ≡ stored w)
      → (n : ℕ) → cfg.max_field_bytes ≡ pos n
      → 0 < n
      → n < 2 ^ 47
      → (buffer_cfg : Config) (events : List Event) (s : Flushing W)
      → Outcome stored
          (map
            (persisted (build_statements trino_cfg))
            (dedupe (map (stored_row marshal cfg) events)))
          s
          (flush
            (trino_env (build_statements trino_cfg) exec canceled unix_ms elapsed_ms wait cancel)
            buffer_cfg
            (map (stored_row marshal cfg) events)
            s)
  flush_stored-Outcome exec stored canceled unix_ms elapsed_ms wait cancel db wk ck n h p q
        buffer_cfg events s =
      let store = build_statements trino_cfg in
      flush-Outcome (trino_env store exec canceled unix_ms elapsed_ms wait cancel) buffer_cfg
        (IsWithinBudget store) (persisted store) stored
        (trino_env-Contract store exec stored canceled unix_ms elapsed_ms wait cancel db wk ck)
        (map (stored_row marshal cfg) events) s
        (dedupe-All (IsWithinBudget store) (map (stored_row marshal cfg) events)
          (All-stored n h p q events))
