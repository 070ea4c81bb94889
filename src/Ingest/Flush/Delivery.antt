-- ===== src/Ingest/Flush/Delivery.antt =====
-- What a flush has written to a store that keeps the contract.
use mathlib.Core.Path.{subst}
use trino_log_sink.Base.{
  List, Option-cases, ap, append-nil, append_assoc, arith, drop, if_intro, inl, inr, length,
  length-drop, length-map, map, map-drop, min_ℤ, refl, suc, sym, take, take-drop, zero, ℕ, ◌++◌,
  ◌+◌, ◌-◌, ◌∙◌, ◌≡◌, ◌≤◌, ◌⊎◌, All, All-drop,
}
use trino_log_sink.Event.{Duration}
use trino_log_sink.Store.Row.{Row}
use trino_log_sink.Store.Errors.{is_non_retryable}
use trino_log_sink.Ingest.Dedupe.{dedupe}
use trino_log_sink.Ingest.Flush.{
  Config, Env, Flushing, attempts, clamp, commit, double, flush, flush_non_retryable, give_up,
  insert, observe, pause,
}
use trino_log_sink.Ingest.Flush.Accounting.{dropped_rows, failures, flushed_rows}
use trino_log_sink.Ingest.Flush.Contract.{Contract, clamp-Inserted, insert-Inserted}

-- The outcome of a loop that had to write `rows`: a prefix of them is stored, the rest is dropped, and
-- nothing is dropped unless a failure is reported.
pub record Outcome {W V : Type 0} (stored : W → List V) (rows : List V) (s t : Flushing W)
    : Type 0 where
  pub count : ℕ
  pub count_le : count ≤ length rows
  pub prefix : stored t.world ≡ stored s.world ++ take count rows
  pub reported : flushed_rows t.calls ≡ flushed_rows s.calls + count
  pub rest : dropped_rows t.calls ≡ dropped_rows s.calls + (length rows - count)
  pub verdict :
      ((count ≡ length rows) × (failures t.calls ≡ failures s.calls))
      ⊎ (failures t.calls ≡ failures s.calls + 1)

module _ (e : Env) (cfg : Config) {V : Type 0} (Ok : Row → Type 0) (view : Row → V)
    (stored : e.World → List V) (c : Contract e Ok view stored) where
  open e use {World, insert_batch, split_batch, canceled, wait}

  commit-world :
      (start w : World) (n : ℕ) (s : Flushing World) → (commit e cfg start w n s).world ≡ w
  unfolding commit
  commit-world start w n s = ground arith

  -- A round that has stored and reported `n` of the rows, with nothing dropped yet.
  record Progress (rows : List V) (n : ℕ) (s t : Flushing World) : Type 0 where
    n_le : n ≤ length rows
    stored_more : stored t.world ≡ stored s.world ++ take n rows
    flushed_more : flushed_rows t.calls ≡ flushed_rows s.calls + n
    dropped_same : dropped_rows t.calls ≡ dropped_rows s.calls
    failures_same : failures t.calls ≡ failures s.calls

  Progress-done :
      (rows : List V) (n : ℕ) (s t : Flushing World)
      → n ≡ length rows
      → Progress rows n s t
      → Outcome stored rows s t
  Progress-done rows n s t e p = record {
    count = n;
    count_le = p.n_le;
    prefix = p.stored_more;
    reported = p.flushed_more;
    rest = omega (arith, p.dropped_same);
    verdict = inl (e, p.failures_same);
  }

  -- The calls that giving up `k` rows adds to those of a state.
  record GivenUp (k : ℕ) (s t : Flushing World) : Type 0 where
    world_same : t.world ≡ s.world
    flushed_same : flushed_rows t.calls ≡ flushed_rows s.calls
    dropped_more : dropped_rows t.calls ≡ dropped_rows s.calls + k
    failures_more : failures t.calls ≡ failures s.calls + 1

  give_up-GivenUp :
      (rows : List Row) (s : Flushing World) → GivenUp (length rows) s (give_up rows s)
  unfolding give_up flushed_rows dropped_rows failures
  give_up-GivenUp rows s = record {
    world_same = refl;
    flushed_same = refl;
    dropped_more = omega arith;
    failures_more = omega arith;
  }

  give_up_non_retryable-GivenUp :
      (rows : List Row) (s : Flushing World)
      → GivenUp (length rows) s (give_up rows (observe flush_non_retryable s))
  unfolding give_up flushed_rows dropped_rows failures
  give_up_non_retryable-GivenUp rows s = record {
    world_same = refl;
    flushed_same = refl;
    dropped_more = omega arith;
    failures_more = omega arith;
  }

  Progress-GivenUp :
      (rows : List V) (n k : ℕ) (s t u : Flushing World)
      → k ≡ length rows - n
      → Progress rows n s t
      → GivenUp k t u
      → Outcome stored rows s u
  Progress-GivenUp rows n k s t u e p g = record {
    count = n;
    count_le = p.n_le;
    prefix = ap stored g.world_same ∙ p.stored_more;
    reported = g.flushed_same ∙ p.flushed_more;
    rest = omega (arith, p.dropped_same, g.dropped_more);
    verdict = inr (omega (arith, p.failures_same, g.failures_more));
  }

  Progress-Outcome :
      (rows : List V) (n : ℕ) (s t u : Flushing World)
      → Progress rows n s t
      → Outcome stored (drop n rows) t u
      → Outcome stored rows s u
  Progress-Outcome rows n s t u p o = record {
    count = n + o.count;
    count_le = omega (arith, length-drop n rows, o.count_le, p.n_le);
    prefix = simp (o.prefix, p.stored_more, append_assoc, take-drop);
    reported = omega (arith, o.reported, p.flushed_more);
    rest = omega (arith, length-drop n rows, o.rest, p.dropped_same, o.count_le);
    verdict = verdict_of o.verdict;
  }
    where
      verdict_of :
          ((o.count ≡ length (drop n rows)) × (failures u.calls ≡ failures t.calls))
            ⊎ (failures u.calls ≡ failures t.calls + 1)
          → ((n + o.count ≡ length rows) × (failures u.calls ≡ failures s.calls))
            ⊎ (failures u.calls ≡ failures s.calls + 1)
      verdict_of (inl (h, k)) = inl (omega (arith, length-drop n rows, p.n_le), k ∙ p.failures_same)
      verdict_of (inr k) = inr (omega (arith, p.failures_same))

  commit-Progress :
      (start w : World) (rows : List V) (n : ℕ) (s : Flushing World)
      → n ≤ length rows
      → stored w ≡ stored s.world ++ take n rows
      → Progress rows n s (commit e cfg start w n s)
  unfolding commit flushed_rows dropped_rows failures
  commit-Progress start w rows n s le written = record {
    n_le = le;
    stored_more = rw (commit-world start w n s) written;
    flushed_more = ground arith;
    dropped_same = ground arith;
    failures_same = ground arith;
  }

  pause-Progress :
      (left : ℕ) (d : Duration) (rows : List V) (n : ℕ) (s t : Flushing World)
      → Progress rows n s t
      → Progress rows n s (pause e cfg left d t)
  unfolding pause
  pause-Progress zero d rows n s t p = p
  pause-Progress (suc left) d rows n s t p = record {
    n_le = p.n_le;
    stored_more = c.wait_keeps d t.world ∙ p.stored_more;
    flushed_more = p.flushed_more;
    dropped_same = p.dropped_same;
    failures_same = p.failures_same;
  }

  attempts-Outcome :
      (left : ℕ) (backoff : Duration) (rows : List Row) (s : Flushing World)
      → All Ok rows
      → Outcome stored (map view rows) s (attempts e cfg left backoff rows s)
  unfolding attempts
  attempts-Outcome zero backoff rows s ok =
      Progress-GivenUp (map view rows) 0 (length rows) s s _ (omega (arith, length-map view rows))
        (record {
          n_le = omega arith;
          stored_more = sym (append-nil (stored s.world));
          flushed_more = omega arith;
          dropped_same = refl;
          failures_same = refl;
        })
        (give_up-GivenUp rows s)
  attempts-Outcome (suc left) backoff rows s ok =
      let (w, count, err) = insert e cfg s.world rows in
      let h = insert-Inserted e cfg Ok view stored c s.world rows ok in
      let n = clamp e cfg count rows in
      let s' = commit e cfg s.world w n s in
      let same : n ≡ h.more = clamp-Inserted e cfg Ok view stored c s.world rows h in
      let p : Progress (map view rows) n s s' =
        commit-Progress s.world w (map view rows) n s (omega (arith, h.more_le))
          (rw same h.written) in
      let left_over : length (drop n rows) ≡ length (map view rows) - n =
        omega (arith, length-drop n rows, length-map view rows) in
      elim (Option-cases err) [
        | inl q ↦ rw (q, attempts) (Progress-done (map view rows) n s s' (same ∙ h.complete q) p)
        | inr (x, q) ↦
            rw (q, attempts)
              (if_intro (Outcome stored (map view rows) s) (is_non_retryable x)
                (Progress-GivenUp (map view rows) n (length (drop n rows)) s s' _ left_over p
                  (give_up_non_retryable-GivenUp (drop n rows) s'))
                (if_intro (Outcome stored (map view rows) s) (canceled s'.world)
                  (Progress-GivenUp (map view rows) n (length (drop n rows)) s s' _ left_over p
                    (give_up-GivenUp (drop n rows) s'))
                  (Progress-Outcome (map view rows) n s (pause e cfg left backoff s') _
                    (pause-Progress left backoff (map view rows) n s s' p)
                    (subst
                      (λ vs. Outcome stored vs (pause e cfg left backoff s') (
                        attempts e cfg left (min_ℤ (double e cfg backoff) cfg.retry_max_backoff)
                          (drop n rows) (pause e cfg left backoff s')))
                      (map-drop view n rows)
                      (attempts-Outcome left (min_ℤ (double e cfg backoff) cfg.retry_max_backoff)
                        (drop n rows) (pause e cfg left backoff s') (All-drop Ok n rows ok))))))
      ]

  -- A flush of a batch whose rows are `Ok` into a store that keeps the contract: what is stored is a
  -- prefix of the deduplicated batch, in its order and with no row written twice, whatever fails in
  -- between; the rows reported as flushed are that prefix and those reported as dropped the rest; and
  -- either the prefix is the whole and no failure is reported, or one failure is.
  pub flush-Outcome :
      (rows : List Row) (s : Flushing World)
      → All Ok (dedupe rows)
      → Outcome stored (map view (dedupe rows)) s (flush e cfg rows s)
  unfolding flush
  flush-Outcome rows s ok = attempts-Outcome _ cfg.retry_backoff (dedupe rows) s ok
