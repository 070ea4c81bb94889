-- ===== src/Ingest/Flush/Accounting.antt =====
-- What a flush reports to the `Observer`: every row of the batch once, as flushed or as dropped.
use trino_log_sink.Base.{
  List, Option-cases, [], ap, append-nil, arith, concat, drop, inl, inr, length, length-append,
  length-drop, min_ℤ, none, pos, refl, some, suc, zero, ℕ, ℤ, ◌+◌, ◌∷◌, ◌≡◌, ◌≤◌,
}
use trino_log_sink.Event.{Duration}
use trino_log_sink.Store.Row.{Row}
use trino_log_sink.Ingest.Dedupe.{dedupe}
use trino_log_sink.Ingest.Flush.{
  Call, Config, Env, Flushing, attempts, clamp, commit, double, dropped, flush, flush_failed,
  flush_non_retryable, flushed, give_up, insert, insert_chunks, observe, or_one_batch, pause, split,
}

-- The rows reported as flushed, and as dropped, and the batches reported as failed.
unfoldable pub flushed_rows : List Call → ℕ
flushed_rows [] = 0
flushed_rows (flushed n ∷ cs) = n + flushed_rows cs
flushed_rows (_ ∷ cs) = flushed_rows cs

unfoldable pub dropped_rows : List Call → ℕ
dropped_rows [] = 0
dropped_rows (dropped n ∷ cs) = n + dropped_rows cs
dropped_rows (_ ∷ cs) = dropped_rows cs

unfoldable pub failures : List Call → ℕ
failures [] = 0
failures (flush_failed ∷ cs) = suc (failures cs)
failures (_ ∷ cs) = failures cs

-- The parts into which the writer splits a batch hold as many rows as the batch.
abbrev pub KeepsLength : Env → Type 0
KeepsLength e =
    (s : List Row → List (List Row))
    → e.split_batch ≡ some s
    → (rows : List Row) → length (concat (s rows)) ≡ length rows

module _ (e : Env) (cfg : Config) where
  open e use {World, insert_batch, split_batch, canceled, wait}

  concat-or_one_batch :
      (rows : List Row) (chunks : List (List Row))
      → length (concat chunks) ≡ length rows
      → length (concat (or_one_batch rows chunks)) ≡ length rows
  unfolding or_one_batch
  concat-or_one_batch rows [] h = simp append-nil
  concat-or_one_batch rows (c ∷ chunks) h = h

  length-split :
      (rows : List Row) → KeepsLength e → length (concat (split e cfg rows)) ≡ length rows
  unfolding split
  length-split rows h = elim (Option-cases split_batch) [
    | inl p ↦ rw (p, split) (simp append-nil)
    | inr (s, p) ↦ rw (p, split) (concat-or_one_batch rows (s rows) (h s p rows))
  ]

  insert_chunks-none :
      (w : World) (k : ℕ) (chunks : List (List Row))
      → (insert_chunks e cfg w k chunks).2 ≡ none
      → (insert_chunks e cfg w k chunks).1 ≡ pos (k + length (concat chunks))
  unfolding insert_chunks
  insert_chunks-none w k [] h = ap pos (omega arith)
  insert_chunks-none w k (c ∷ chunks) h =
      let (w', err) = insert_batch cfg.flush_timeout w c in
      ground (arith, insert_chunks-none w' (k + length c) chunks, length-append c (concat chunks))

  settled : Flushing World → ℕ
  unfolding flushed_rows dropped_rows
  settled s = flushed_rows s.calls + dropped_rows s.calls

  settled-commit :
      (start w : World) (n : ℕ) (s : Flushing World)
      → settled (commit e cfg start w n s) ≡ settled s + n
  unfolding settled commit
  settled-commit start w n s = ground arith

  settled-give_up :
      (rows : List Row) (s : Flushing World) → settled (give_up rows s) ≡ settled s + length rows
  unfolding settled give_up
  settled-give_up rows s = ground arith

  settled-give_up_non_retryable :
      (rows : List Row) (s : Flushing World)
      → settled (give_up rows (observe flush_non_retryable s)) ≡ settled s + length rows
  unfolding settled give_up
  settled-give_up_non_retryable rows s = ground arith

  settled-pause :
      (left : ℕ) (d : Duration) (s : Flushing World) → settled (pause e cfg left d s) ≡ settled s
  unfolding settled pause
  settled-pause zero d s = refl
  settled-pause (suc left) d s = refl

  insert-none :
      (w : World) (rows : List Row)
      → KeepsLength e
      → (insert e cfg w rows).2 ≡ none
      → clamp e cfg (insert e cfg w rows).1 rows ≡ length rows
  unfolding insert clamp
  insert-none w rows k h =
      rw (insert_chunks-none w 0 (split e cfg rows) h) (omega (arith, length-split rows k))

  clamp-le : (count : ℤ) (rows : List Row) → clamp e cfg count rows ≤ length rows
  unfolding clamp
  clamp-le count rows = omega arith

  settled-attempts :
      (left : ℕ) (backoff : Duration) (rows : List Row) (s : Flushing World)
      → KeepsLength e
      → settled (attempts e cfg left backoff rows s) ≡ settled s + length rows
  unfolding attempts
  settled-attempts zero backoff rows s k = settled-give_up rows s
  settled-attempts (suc left) backoff rows s k =
      let (w, count, err) = insert e cfg s.world rows in
      let n = clamp e cfg count rows in
      let s' = commit e cfg s.world w n s in
      ground (
        arith,
        settled-commit s.world w n s,
        settled-give_up (drop n rows) s',
        settled-give_up_non_retryable (drop n rows) s',
        settled-pause left backoff s',
        insert-none s.world rows k,
        length-drop n rows,
        clamp-le count rows,
        settled-attempts left (min_ℤ (double e cfg backoff) cfg.retry_max_backoff) (drop n rows)
            (pause e cfg left backoff s') k,
      )

  -- For a writer that splits a batch into as many rows, and whatever its inserts do: each row of the
  -- deduplicated batch is reported once, as flushed or as dropped.
  pub flush_accounts :
      KeepsLength e
      → (rows : List Row) (s : Flushing World)
      → flushed_rows (flush e cfg rows s).calls + dropped_rows (flush e cfg rows s).calls
        ≡ flushed_rows s.calls + dropped_rows s.calls + length (dedupe rows)
  unfolding flush settled
  flush_accounts k rows s = settled-attempts _ _ (dedupe rows) s k
