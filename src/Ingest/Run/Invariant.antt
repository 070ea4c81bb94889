-- ===== src/Ingest/Run/Invariant.antt =====
-- What holds of the buffer after any history of producers, ticks, flushes and shutdown.
use trino_log_sink.Base.{
  Bool-cases, List, [], ap, arith, inl, inr, leb, length, length-append, refl, suc, ℕ, ◌++◌, ◌+◌,
  ◌<◌, ◌∙◌, ◌∷◌, ◌≡◌, ◌≢◌, ◌≤◌,
}
use trino_log_sink.Store.Row.{Row}
use trino_log_sink.Ingest.Dedupe.{length-dedupe}
use trino_log_sink.Ingest.Flush.{Config, Env, Flushing, flush, observe}
use trino_log_sink.Ingest.Flush.Accounting.{KeepsLength, dropped_rows, flush_accounts, flushed_rows}
use trino_log_sink.Ingest.Run.{
  Add, Buffer, Reach, Work, add, capacity, close, closing, end, ended, finished, flush_batch, full,
  give_up_drain, init, merged, merged_on_receive, receive, received, refused, send, sent, start,
  stop, tick, work,
}

module _ (e : Env) (cfg : Config) (keeps : KeepsLength e) where
  open e use {World, cancel}

  -- Every row that was offered is queued, in the batch, reported as flushed, reported as dropped, or
  -- replaced by a later row of its query id; the queue stays within its capacity, and the batch below
  -- `BatchSize`.
  pub record Inv (offered lost : ℕ) (s : Buffer World) : Type 0 where
    pub conserved :
        flushed_rows s.calls + dropped_rows s.calls + length s.batch + length s.queue + lost
        ≡ offered
    pub queue_fits : length s.queue ≤ capacity e cfg
    pub batch_fits : 0 < cfg.batch_size → length s.batch < cfg.batch_size
    pub finished_flushed : s.phase ≡ finished → s.batch ≡ []

  init-Inv : (w : World) → Inv 0 0 (init e cfg w)
  unfolding init flushed_rows dropped_rows
  init-Inv w = record {
    conserved = omega arith;
    queue_fits = omega arith;
    batch_fits = λ h. h;
    finished_flushed = λ _. refl;
  }

  Add-Inv :
      {offered lost : ℕ} {s t : Buffer World} (r : Row)
      → Add e cfg r s t
      → Inv offered lost s
      → Inv (suc offered) lost t
  unfolding sent refused observe flushed_rows dropped_rows
  Add-Inv {s = s} r (send h) v = record {
    conserved = omega (arith, v.conserved, length-append s.queue (r ∷ []));
    queue_fits = omega (arith, length-append s.queue (r ∷ []));
    batch_fits = v.batch_fits;
    finished_flushed = v.finished_flushed;
  }
  Add-Inv r (closing h) v = record {
    conserved = omega (arith, v.conserved);
    queue_fits = v.queue_fits;
    batch_fits = v.batch_fits;
    finished_flushed = v.finished_flushed;
  }
  Add-Inv r (full h k) v = record {
    conserved = omega (arith, v.conserved);
    queue_fits = v.queue_fits;
    batch_fits = v.batch_fits;
    finished_flushed = v.finished_flushed;
  }

  flush-settles :
      (rows : List Row) (s : Flushing World)
      → flushed_rows (flush e cfg rows s).calls
          + dropped_rows (flush e cfg rows s).calls
          + merged e cfg rows
        ≡ flushed_rows s.calls + dropped_rows s.calls + length rows
  unfolding merged
  flush-settles rows s = omega (arith, flush_accounts e cfg keeps rows s, length-dedupe rows)

  -- A flush of the batch leaves everything but the batch, the world and the calls.
  record Flushed (s t : Buffer World) : Type 0 where
    settles :
        flushed_rows t.calls + dropped_rows t.calls + merged e cfg s.batch
        ≡ flushed_rows s.calls + dropped_rows s.calls + length s.batch
    batch_empty : t.batch ≡ []
    queue_same : t.queue ≡ s.queue
    phase_same : t.phase ≡ s.phase
    stopped_same : t.stopped ≡ s.stopped

  flush_batch-Flushed :
      (s : Buffer World) (b : List Row) → s.batch ≡ b → Flushed s (flush_batch e cfg s)
  unfolding flush_batch merged
  flush_batch-Flushed s [] h =
      rw (h, flush_batch)
        (record {
          settles = omega (arith, length-dedupe []);
          batch_empty = h;
          queue_same = refl;
          phase_same = refl;
          stopped_same = refl;
        })
  flush_batch-Flushed s (r ∷ b) h =
      rw (h, flush_batch)
        (record {
          settles = (flush-settles (r ∷ b) s.flushing);
          batch_empty = refl;
          queue_same = refl;
          phase_same = refl;
          stopped_same = refl;
        })

  Flushed-Inv :
      {offered lost : ℕ} {s t : Buffer World}
      → Flushed s t
      → Inv offered lost s
      → Inv offered (lost + merged e cfg s.batch) t
  Flushed-Inv {s = s} {t = t} f v = record {
    conserved =
        omega (arith, f.settles, v.conserved, ap length f.batch_empty, ap length f.queue_same);
    queue_fits = omega (arith, ap length f.queue_same, v.queue_fits);
    batch_fits = λ h. omega (arith, ap length f.batch_empty);
    finished_flushed = λ _. f.batch_empty;
  }

  received-Inv :
      {offered lost : ℕ} (s : Buffer World) (r : Row) (queue : List Row)
      → s.phase ≢ finished
      → s.queue ≡ r ∷ queue
      → Inv offered lost s
      → Inv offered (lost + merged_on_receive e cfg (s.batch ++ r ∷ [])) (received e cfg r queue s)
  unfolding received merged_on_receive
  received-Inv s r queue live h v =
      elim (Bool-cases (leb cfg.batch_size (length (s.batch ++ r ∷ [])))) [
        | inl e ↦
            rw (e, received, merged_on_receive)
              (record {
                conserved = omega (
                  arith,
                  flush-settles (s.batch ++ r ∷ []) s.flushing,
                  length-append s.batch (r ∷ []),
                  ap length h,
                  v.conserved,
                );
                queue_fits = omega (arith, ap length h, v.queue_fits);
                batch_fits = λ h. h;
                finished_flushed = λ _. refl;
              })
        | inr e ↦
            rw (e, received, merged_on_receive)
              (record {
                conserved = omega (arith, length-append s.batch (r ∷ []), ap length h, v.conserved);
                queue_fits = omega (arith, ap length h, v.queue_fits);
                batch_fits = λ _. ground arith;
                finished_flushed = λ p. absurd (live p);
              })
      ]

  ended-Inv :
      {offered lost : ℕ} {s t : Buffer World}
      → Flushed s t
      → Inv offered lost s
      → Inv offered
          (lost + merged e cfg s.batch)
          (record t { flushing = record t.flushing { world = cancel t.world }; phase = finished })
  ended-Inv f v =
      let w = Flushed-Inv f v in
      record {
        conserved = w.conserved;
        queue_fits = w.queue_fits;
        batch_fits = w.batch_fits;
        finished_flushed = λ _. f.batch_empty;
      }

  same-Inv :
      {offered lost : ℕ} (s t : Buffer World)
      → t.calls ≡ s.calls
      → t.batch ≡ s.batch
      → t.queue ≡ s.queue
      → (t.phase ≡ finished → s.phase ≡ finished)
      → Inv offered lost s
      → Inv offered (lost + 0) t
  same-Inv s t c b q p v = record {
    conserved =
        omega (arith, v.conserved, ap flushed_rows c, ap dropped_rows c, ap length b, ap length q);
    queue_fits = omega (arith, v.queue_fits, ap length q);
    batch_fits = λ h. omega (arith, v.batch_fits h, ap length b);
    finished_flushed = λ h. b ∙ v.finished_flushed (p h);
  }

  Work-Inv :
      {s : Buffer World} {offered lost k : ℕ} {t : Buffer World}
      → Work e cfg s k t
      → Inv offered lost s
      → Inv offered (lost + k) t
  unfolding ended
  Work-Inv {s = s} (receive r queue live h) v = received-Inv s r queue live h v
  Work-Inv {s = s} (tick h) v = Flushed-Inv (flush_batch-Flushed s s.batch refl) v
  Work-Inv {s = s} (stop h k) v = same-Inv s _ refl refl refl (λ p. cc) v
  Work-Inv {s = s} (end h k) v = ended-Inv (flush_batch-Flushed s s.batch refl) v
  Work-Inv {s = s} close v = same-Inv s _ refl refl refl (λ p. p) v
  Work-Inv {s = s} (give_up_drain h) v = same-Inv s _ refl refl refl (λ p. p) v

  -- After every history of producers, flusher and shutdown, in every interleaving: each row that was
  -- offered is in the queue or the batch, reported as flushed or dropped, or replaced by a later row of
  -- its query id; the queue is within its capacity, the batch below a positive `BatchSize`, and the
  -- batch empty once the flusher has returned. The writer splits a batch into as many rows.
  pub Reach-Inv :
      {w : World} {offered lost : ℕ} {s : Buffer World}
      → Reach e cfg w offered lost s
      → Inv offered lost s
  Reach-Inv {w = w} start = init-Inv w
  Reach-Inv (add r h a) = Add-Inv r a (Reach-Inv h)
  Reach-Inv (work h a) = Work-Inv a (Reach-Inv h)
