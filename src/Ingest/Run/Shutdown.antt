-- ===== src/Ingest/Run/Shutdown.antt =====
-- Shutdown: once `stop` is closed, the flusher can always come to its end, with every row settled.
use trino_log_sink.Base.{List, [], ap, arith, length, refl, sym, true, ℕ, ◌+◌, ◌∙◌, ◌∷◌, ◌≡◌, ◌≢◌}
use trino_log_sink.Store.Row.{Row}
use trino_log_sink.Ingest.Flush.{Config, Env}
use trino_log_sink.Ingest.Flush.Accounting.{KeepsLength, dropped_rows, flushed_rows}
use trino_log_sink.Ingest.Run.{
  Buffer, Phase, Reach, draining, draining≢finished, end, ended, finished, flush_batch, receive,
  received, running, stop, work,
}
use trino_log_sink.Ingest.Run.Invariant.{Reach-Inv}

module _ (e : Env) (cfg : Config) (w : e.World) where
  open e use {World}

  received-queue :
      (r : Row) (queue : List Row) (s : Buffer World) → (received e cfg r queue s).queue ≡ queue
  unfolding received
  received-queue r queue s = ground arith

  received-phase :
      (r : Row) (queue : List Row) (s : Buffer World) → (received e cfg r queue s).phase ≡ s.phase
  unfolding received
  received-phase r queue s = ground arith

  flush_batch-queue :
      (s : Buffer World) (b : List Row) → s.batch ≡ b → (flush_batch e cfg s).queue ≡ s.queue
  unfolding flush_batch
  flush_batch-queue s [] h = rw (h, flush_batch)
  flush_batch-queue s (r ∷ b) h = rw (h, flush_batch)

  ended-queue : (s : Buffer World) → (ended e cfg s).queue ≡ s.queue
  unfolding ended
  ended-queue s = flush_batch-queue s s.batch refl

  ended-phase : (s : Buffer World) → (ended e cfg s).phase ≡ finished
  unfolding ended
  ended-phase s = refl

  -- A later state of the same history, in which the flusher has returned and the queue is empty.
  record Drained (offered : ℕ) : Type 0 where
    lost : ℕ
    state : Buffer World
    reached : Reach e cfg w offered lost state
    at_end : state.phase ≡ finished
    queue_empty : state.queue ≡ []

  drain :
      (queue : List Row) {offered lost : ℕ} (s : Buffer World)
      → s.queue ≡ queue
      → s.phase ≡ draining
      → Reach e cfg w offered lost s
      → Drained offered
  drain [] s q p h = record {
    lost = _;
    state = ended e cfg s;
    reached = work h (end p q);
    at_end = ended-phase s;
    queue_empty = ended-queue s ∙ q;
  }
  drain (r ∷ queue) s q p h =
      drain queue (received e cfg r queue s) (received-queue r queue s)
        (received-phase r queue s ∙ p)
        (work h (receive r queue (λ f. draining≢finished (sym p ∙ f)) q))

  settled_at_end :
      {offered : ℕ}
      → KeepsLength e
      → (d : Drained offered)
      → flushed_rows d.state.calls + dropped_rows d.state.calls + d.lost ≡ offered
  settled_at_end k d =
      let v = Reach-Inv e cfg k d.reached in
      omega (arith, v.conserved, ap length (v.finished_flushed d.at_end), ap length d.queue_empty)

  -- From every state that is reached with `stop` closed and the flusher not returned, the flusher can
  -- return without a row being added in between; then every row ever offered is reported as flushed
  -- or as dropped, or was replaced by a later row of its query id. The writer splits a batch into as
  -- many rows.
  pub shutdown_settles :
      KeepsLength e
      → {offered lost : ℕ} (s : Buffer World) → Reach e cfg w offered lost s
      → s.stopped ≡ true
      → s.phase ≢ finished
      → (lost' : ℕ) × (t : Buffer World) × Reach e cfg w offered lost' t
        × (t.phase ≡ finished)
        × (flushed_rows t.calls + dropped_rows t.calls + lost' ≡ offered)
  shutdown_settles k {offered} s h st live =
      let d = go s.phase refl in (d.lost, d.state, d.reached, d.at_end, settled_at_end k d)
    where
      go : (p : Phase) → s.phase ≡ p → Drained offered
      go running p = drain s.queue (record s { phase = draining }) refl refl (work h (stop p st))
      go draining p = drain s.queue s refl p h
      go finished p = absurd (live p)
