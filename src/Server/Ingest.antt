-- ===== src/Server/Ingest.antt =====
-- internal/server/ingest.go: `handleIngest`, from the decoded body to the row that is added to the
-- buffer. `json.Decoder.Decode` under the size limit is the decoded event, none for an error.
pub mod Accounting
pub mod Rows
pub mod Delivery
pub mod Described
pub mod Served
use trino_log_sink.Base.{Bytes, List, Option, bytes_eq, if◌then◌else◌, none, some, ℕ, ℤ, [], ◌∷◌}
use trino_log_sink.Event.{Event, InputMetadata, source_value, validate}
use trino_log_sink.Store.Row.{Row}
use trino_log_sink.Store.Truncate.{truncate_fields}
use trino_log_sink.Store.FromEvent.{PlanPolicy, apply_plan_policy, row_from_event, with_preview}
use trino_log_sink.Server.Metrics.{Metrics, invalid_event, received_event, suppressed_event}

-- The part of the configuration that the handler reads.
pub record Settings : Type 0 where
  pub source : Bytes
  pub plan_policy : PlanPolicy
  pub preview_bytes : ℤ
  pub max_field_bytes : ℤ

-- The status of the response, the counters, and the row for the buffer's `Add`.
pub record Response : Type 0 where
  pub status : ℕ
  pub metrics : Metrics
  pub added : Option Row

abbrev pub status_accepted : ℕ
status_accepted = 202

abbrev pub status_bad_request : ℕ
status_bad_request = 400

module _ (marshal : List InputMetadata → Option Bytes) (cfg : Settings) where
  -- The row that an event is stored as.
  unfoldable pub stored_row : Event → Row
  stored_row e =
      truncate_fields
        (with_preview (apply_plan_policy (row_from_event marshal e) cfg.plan_policy)
          cfg.preview_bytes)
        cfg.max_field_bytes

  accept_event : Metrics → Event → Response
  unfolding suppressed_event stored_row source_value bytes_eq
  accept_event m e =
      if bytes_eq (source_value e) cfg.source
      then record { status = status_accepted; metrics = suppressed_event m; added = none }
      else record { status = status_accepted; metrics = m; added = some (stored_row e) }

  validated : Metrics → Event → Response
  unfolding invalid_event validate accept_event
  validated m e = elim (validate e) [
    | some x ↦ record { status = status_accepted; metrics = invalid_event m; added = none }
    | none ↦ accept_event m e
  ]

  decoded : Metrics → Option Event → Response
  unfolding invalid_event validated
  decoded m none = record { status = status_bad_request; metrics = invalid_event m; added = none }
  decoded m (some e) = validated m e

  unfoldable pub handle_ingest : Metrics → Option Event → Response
  unfolding received_event decoded
  handle_ingest m event = decoded (received_event m) event

  -- Requests that are served one after another: the counters behind them, and the answers with the rows for the buffer.
  unfoldable pub serve : Metrics → List (Option Event) → Metrics × List (ℕ × Option Row)
  unfolding handle_ingest
  serve m [] = (m, [])
  serve m (q ∷ qs) =
      let r = handle_ingest m q in
      let (m', answers) = serve r.metrics qs in (m', (r.status, r.added) ∷ answers)
