-- ===== src/Server/Readiness.antt =====
-- internal/server/server.go: `RunReadiness`, `MarkNotReady` and the two probes. The checks, the signal that
-- cancels the context and the mark are steps that interleave; time is left out.
pub mod Probe
use trino_log_sink.Base.{
  Bool, Bytes, Option, bytes_eq, codes, false, if◌then◌else◌, none, some, true, ℕ, ◌≡◌,
}
use trino_log_sink.Event.{Duration}
use trino_log_sink.Settings.{Readiness}

-- Where the goroutine of `RunReadiness` stands: in the store's check, behind it with its outcome, at the
-- select, or returned.
pub data Phase : Type 0 where
  checking : Phase
  checked : Bool → Phase
  waiting returned : Phase

-- `s.ready`, the context, and whether `MarkNotReady` was called; `last` is the outcome of the last check that
-- was stored.
pub record State : Type 0 where
  pub ready : Bool
  pub phase : Phase
  pub cancelled : Bool
  pub marked : Bool
  pub last : Option Bool

-- The function that is called as a check: true for `ValidateTable`.
unfoldable pub checks_table : Readiness → Bool
unfolding bytes_eq
checks_table r = bytes_eq r.mode (codes "table")

-- The wait before the next check.
unfoldable pub next_wait : Readiness → State → Duration
next_wait r s = if s.ready then r.interval else r.fail_interval

unfoldable pub start : State
start = record { ready = false; phase = checking; cancelled = false; marked = false; last = none }

unfoldable pub check_done : Bool → State → State
check_done ok s = record s { phase = checked ok }

-- The `Swap` at the end of a check.
unfoldable pub swap : Bool → State → State
swap ok s = record s { ready = ok; phase = waiting; last = some ok }

unfoldable pub mark_not_ready : State → State
mark_not_ready s = record s { ready = false; marked = true }

-- A wait that is over is taken even when the context is cancelled too: the select may choose either.
pub data Step : State → State → Type 0 where
  check_returns : {s : State} (ok : Bool) → s.phase ≡ checking → Step s (check_done ok s)
  check_stores : {s : State} (ok : Bool) → s.phase ≡ checked ok → Step s (swap ok s)
  wait_over : {s : State} → s.phase ≡ waiting → Step s (record s { phase = checking })
  loop_returns :
      {s : State} → s.phase ≡ waiting → s.cancelled ≡ true → Step s (record s { phase = returned })
  signal : {s : State} → Step s (record s { cancelled = true })
  marks : {s : State} → Step s (mark_not_ready s)

pub data Steps : State → State → Type 0 where
  stay : {s : State} → Steps s s
  then_step : {s t u : State} → Steps s t → Step t u → Steps s u

pub data Response : Type 0 where
  response : ℕ → Bytes → Response

unfoldable pub handle_healthz : Response
handle_healthz = response 200 (codes "ok")

unfoldable pub handle_readyz : State → Response
handle_readyz s =
    if s.ready
    then response 200 (codes "ok")
    else response 503 (codes "not ready: store unreachable")
