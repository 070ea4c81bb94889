-- ===== src/Server/Ingest/Accounting.antt =====
-- What `handleIngest` counts, and what it hands to the buffer.
use trino_log_sink.Base.{
  Bool-cases, Bytes, List, Option, Option-cases, bytes_eq, bytes_eq→eq, false, inl, inr, none, refl,
  some, ◌≡◌,
}
use trino_log_sink.Event.{Event, InputMetadata, InvalidEvent, source_value, validate}
use trino_log_sink.Store.Row.{Row}
use trino_log_sink.Server.Metrics.{Metrics, invalid_event, received_event, suppressed_event}
use trino_log_sink.Server.Ingest.{
  Response, Settings, accept_event, decoded, handle_ingest, stored_row, validated,
}

module _ (marshal : List InputMetadata → Option Bytes) (cfg : Settings) where
  -- A row that is handed over is the stored row of a valid event that this service did not cause.
  pub record Accepted (e : Event) (r : Row) : Type 0 where
    pub is_valid : validate e ≡ none
    pub foreign : bytes_eq (source_value e) cfg.source ≡ false
    pub same_row : r ≡ stored_row marshal cfg e

  -- What has happened to one event: it is counted as received, and as one of invalid, suppressed and
  -- handed to the buffer.
  pub data Handled (m : Metrics) : Option Event → Response → Type 0 where
    bad_body :
        Handled m none
          (record { status = 400; metrics = invalid_event (received_event m); added = none })
    bad_event :
        (e : Event) (x : InvalidEvent)
        → validate e ≡ some x
        → Handled m
            (some e)
            (record { status = 202; metrics = invalid_event (received_event m); added = none })
    own_event :
        (e : Event)
        → validate e ≡ none
        → source_value e ≡ cfg.source
        → Handled m
            (some e)
            (record { status = 202; metrics = suppressed_event (received_event m); added = none })
    handed_over :
        (e : Event) (r : Row)
        → Accepted e r
        → Handled m (some e) (record { status = 202; metrics = received_event m; added = some r })

  -- The branches of the handler.
  pub handle_ingest-Handled :
      (m : Metrics) (event : Option Event) → Handled m event (handle_ingest marshal cfg m event)
  unfolding handle_ingest validated accept_event decoded
  handle_ingest-Handled m none = bad_body
  handle_ingest-Handled m (some e) = elim (Option-cases (validate e)) [
    | inr (x, p) ↦ rw (p, validated) (bad_event e x p)
    | inl p ↦ elim (Bool-cases (bytes_eq (source_value e) cfg.source)) [
      | inl q ↦ rw (p, q, accept_event, validated) (own_event e p (bytes_eq→eq _ _ q))
      | inr q ↦
          rw (p, q, accept_event, validated)
            (handed_over e (stored_row marshal cfg e)
              (record { is_valid = p; foreign = q; same_row = refl }))
    ]
  ]
