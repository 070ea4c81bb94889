-- ===== src/Ingest/Flush.antt =====
-- internal/ingest/buffer.go: `flush`, `insert` and `split`, which write one batch to the store.
-- The store, the clock and the cancelled context stand in an environment that a call may change; the
-- calls of the `Observer` are recorded in their order.
pub mod Accounting
pub mod Contract
pub mod Delivery
use trino_log_sink.Base.{
  Bool, List, Option, [], drop, if◌then◌else◌, leb_ℤ, length, ltb_ℤ, min, min_ℤ, negsuc, none, pos,
  pos_part, some, suc, wrap_int64, zero, ℕ, ℤ, ◌*◌, ◌+ℤ◌, ◌+◌, ◌==◌, ◌∷◌,
}
use trino_log_sink.Event.{Duration}
use trino_log_sink.Store.Row.{Row}
use trino_log_sink.Store.Errors.{Error, committed_rows, is_non_retryable}
use trino_log_sink.Ingest.Dedupe.{dedupe}

pub record Config : Type 0 where
  pub batch_size : ℕ
  pub flush_interval : Duration
  pub buffer_capacity : ℤ
  pub max_retries : ℤ
  pub flush_timeout : Duration
  pub retry_backoff : Duration
  pub retry_max_backoff : Duration

abbrev pub second : ℕ
second = 1_000_000_000

-- The defaults that `New` puts in.
unfoldable pub with_defaults : Config → Config
with_defaults cfg = record {
  batch_size = cfg.batch_size;
  flush_interval = cfg.flush_interval;
  buffer_capacity = if ltb_ℤ cfg.buffer_capacity (pos 1) then pos 1 else cfg.buffer_capacity;
  max_retries = cfg.max_retries;
  flush_timeout = if leb_ℤ cfg.flush_timeout (pos 0) then pos (30 * second) else cfg.flush_timeout;
  retry_backoff = backoff;
  retry_max_backoff =
      if ltb_ℤ cfg.retry_max_backoff backoff then pos (30 * second) else cfg.retry_max_backoff;
}
  where
    backoff : Duration
    backoff = if leb_ℤ cfg.retry_backoff (pos 0) then pos (3 * second) else cfg.retry_backoff

-- A call of the `Observer`.
pub data Call : Type 0 where
  enqueued flush_failed flush_non_retryable : Call
  dropped flushed : ℕ → Call

-- What a flush meets: the `Writer` with its optional `SplitBatch`, whether `flushBase` is cancelled,
-- the clock, the wait for a time or for `stop`, and `flushCancel`.
pub record Env : Type 1 where
  pub World : Type 0
  pub insert_batch : Duration → World → List Row → World × Option Error
  pub split_batch : Option (List Row → List (List Row))
  pub canceled : World → Bool
  pub unix_ms : World → ℤ
  pub elapsed_ms : World → World → ℤ
  pub wait : Duration → World → World
  pub cancel : World → World

-- The part of the buffer that a flush changes.
pub record Flushing (W : Type 0) : Type 0 where
  pub world : W
  pub last_flush_unix_ms : ℤ
  pub last_flush_duration_ms : ℤ
  pub calls : List Call  -- the latest first

module _ {W : Type 0} where
  unfoldable pub observe : Call → Flushing W → Flushing W
  observe c s = record s { calls = c ∷ s.calls }

  -- The end of `flush` behind the loop.
  give_up : List Row → Flushing W → Flushing W
  unfolding observe
  give_up rows s = observe (dropped (length rows)) (observe flush_failed s)

or_one_batch : List Row → List (List Row) → List (List Row)
or_one_batch rows [] = rows ∷ []
or_one_batch rows (c ∷ chunks) = c ∷ chunks

module _ (e : Env) (cfg : Config) where
  open e use {World, insert_batch, split_batch, canceled, unix_ms, elapsed_ms, wait}

  unfoldable pub split : List Row → List (List Row)
  unfolding or_one_batch
  split rows = elim split_batch [
    | some split_rows ↦ or_one_batch rows (split_rows rows)
    | none ↦ rows ∷ []
  ]

  -- The loop of `insert` over the chunks.
  insert_chunks : World → ℕ → List (List Row) → World × ℤ × Option Error
  insert_chunks w committed [] = (w, pos committed, none)
  insert_chunks w committed (chunk ∷ chunks) =
      let (w', err) = insert_batch cfg.flush_timeout w chunk in
      elim err [
        | some x ↦ (w', pos committed +ℤ committed_rows x, some x)
        | none ↦ insert_chunks w' (committed + length chunk) chunks
      ]

  unfoldable pub insert : World → List Row → World × ℤ × Option Error
  unfolding insert_chunks split
  insert w rows = insert_chunks w 0 (split rows)

  -- `min(max(committed, 0), len(rows))`
  pub clamp : ℤ → List Row → ℕ
  clamp committed rows = min (pos_part committed) (length rows)

  -- What a round does with `committed > 0`.
  commit : World → World → ℕ → Flushing World → Flushing World
  unfolding observe
  commit start w committed s =
      if committed == 0
      then record s { world = w }
      else observe (flushed committed) (record s {
        world = w;
        last_flush_unix_ms = unix_ms w;
        last_flush_duration_ms = elapsed_ms start w;
      })

  -- `backoff*2`, in int64.
  double : Duration → Duration
  double d = wrap_int64 (d +ℤ d)

  pause : ℕ → Duration → Flushing World → Flushing World
  pause zero backoff s = s
  pause (suc left) backoff s = record s { world = wait backoff s.world }

  -- The loop of `flush`, by the number of attempts left.
  attempts : ℕ → Duration → List Row → Flushing World → Flushing World
  unfolding insert clamp commit pause give_up double
  attempts zero backoff rows s = give_up rows s
  attempts (suc left) backoff rows s =
      let (w, count, err) = insert s.world rows in
      let committed = clamp count rows in
      let s' = commit s.world w committed s in
      let rows' = drop committed rows in
      let again =
        attempts left (min_ℤ (double backoff) cfg.retry_max_backoff) rows'
          (pause left backoff s') in
      elim err [
        | none ↦ s'
        | some x ↦
            if is_non_retryable x
            then give_up rows' (observe flush_non_retryable s')
            else if canceled s'.world
            then give_up rows' s'
            else again
      ]

  -- `attempt <= MaxRetries`, from 0: so many rounds.
  rounds : ℤ → ℕ
  rounds (pos n) = suc n
  rounds (negsuc n) = 0

  unfoldable pub flush : List Row → Flushing World → Flushing World
  unfolding attempts rounds
  flush rows s = attempts (rounds cfg.max_retries) cfg.retry_backoff (dedupe rows) s
