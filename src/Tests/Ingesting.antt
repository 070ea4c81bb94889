-- ===== src/Tests/Ingesting.antt =====
-- The theorems on deduplication, flushing and the buffer, on a store that fails before it works.
use trino_log_sink.Base.{
  List, [], arith, bytes_eq, codes, length, map, none, refl, true, ℕ, ◌+ℤ◌, ◌+◌, ◌∷◌, ◌≡◌, ◌≢◌,
}
use trino_log_sink.Store.Errors.{committed_rows, is_non_retryable}
use trino_log_sink.Store.Row.{Row}
use trino_log_sink.Ingest.Dedupe.{
  IsDistinct, dedupe, dedupe-IsDistinct, find, find-dedupe, find_last,
}
use trino_log_sink.Ingest.Flush.{flush}
use trino_log_sink.Ingest.Flush.Accounting.{dropped_rows, flush_accounts, flushed_rows}
use trino_log_sink.Ingest.Flush.Delivery.{Outcome, flush-Outcome}
use trino_log_sink.Ingest.Run.{Buffer, Reach, add, close, finished, init, send, sent, start, work}
use trino_log_sink.Ingest.Run.Invariant.{Inv, Reach-Inv}
use trino_log_sink.Ingest.Run.Shutdown.{shutdown_settles}
use trino_log_sink.Tests.Samples.{
  All-Always, Always, buffer_config, flaky_env, flaky_env-Contract, flaky_env-KeepsLength,
  flaky_insert, flaky_rows, flushing, row_a, row_a', row_b, three_rows,
}

dedupe_three : dedupe three_rows ≡ row_a' ∷ row_b ∷ []
unfolding dedupe bytes_eq
dedupe_three = refl

flush_three :
    (flush flaky_env buffer_config three_rows (flushing 2)).world ≡ (0, row_a' ∷ row_b ∷ [])
unfolding flush dedupe bytes_eq flaky_insert is_non_retryable committed_rows ◌+ℤ◌
flush_three = refl

find-dedupe_example : find (codes "a") (dedupe three_rows) ≡ find_last (codes "a") three_rows none
find-dedupe_example = find-dedupe (codes "a") three_rows

dedupe-IsDistinct_example : IsDistinct (dedupe three_rows)
dedupe-IsDistinct_example = dedupe-IsDistinct three_rows

two_rows-IsDistinct : IsDistinct (row_a ∷ row_b ∷ [])
unfolding bytes_eq
two_rows-IsDistinct = ((refl, tt), (tt, tt))

flush-Outcome_example :
    Outcome flaky_rows
      (map (λ r. r) (dedupe three_rows))
      (flushing 2)
      (flush flaky_env buffer_config three_rows (flushing 2))
flush-Outcome_example =
    flush-Outcome flaky_env buffer_config Always (λ r. r) flaky_rows flaky_env-Contract three_rows
      (flushing 2) (All-Always (dedupe three_rows))

flush_accounts_example :
    flushed_rows (flush flaky_env buffer_config three_rows (flushing 7)).calls
      + dropped_rows (flush flaky_env buffer_config three_rows (flushing 7)).calls
    ≡ flushed_rows (flushing 7).calls + dropped_rows (flushing 7).calls + length (dedupe three_rows)
flush_accounts_example =
    flush_accounts flaky_env buffer_config flaky_env-KeepsLength three_rows (flushing 7)

abbrev one_sent : Buffer (ℕ × List Row)
one_sent = sent flaky_env buffer_config row_a (init flaky_env buffer_config (1, []))

one_sent-Reach : Reach flaky_env buffer_config (1, []) 1 0 one_sent
unfolding init
one_sent-Reach = add row_a start (send (omega arith))

abbrev closed : Buffer (ℕ × List Row)
closed = record one_sent { stopped = true }

closed-Reach : Reach flaky_env buffer_config (1, []) 1 0 closed
closed-Reach = work one_sent-Reach close

Reach-Inv_example : Inv flaky_env buffer_config flaky_env-KeepsLength 1 0 closed
Reach-Inv_example = Reach-Inv flaky_env buffer_config flaky_env-KeepsLength closed-Reach

closed-live : closed.phase ≢ finished
unfolding sent init
closed-live h = cc

shutdown_settles_example :
    (lost' : ℕ) × (t : Buffer (ℕ × List Row)) × Reach flaky_env buffer_config (1, []) 1 lost' t
    × (t.phase ≡ finished)
    × (flushed_rows t.calls + dropped_rows t.calls + lost' ≡ 1)
shutdown_settles_example =
    shutdown_settles flaky_env buffer_config (1, []) flaky_env-KeepsLength closed closed-Reach refl
      closed-live

-- A row that was sent behind the end.
abbrev left_over : Buffer (ℕ × List Row)
left_over = record one_sent { phase = finished }
