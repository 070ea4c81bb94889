-- ===== src/Ingest/Run.antt =====
-- internal/ingest/buffer.go: the `Buffer` as a transition system. Producers call `Add`, the one flusher
-- goroutine runs `run` and `drain`, and `Close` closes `stop`; each step is one communication with
-- the work that follows it, and the steps interleave in every order. A flush is one step: it reads
-- and writes nothing of the buffer that a producer touches.
pub mod Invariant
pub mod Shutdown
use trino_log_sink.Base.{
  Bool, List, [], false, if◌then◌else◌, leb, length, pos, pos_part, suc, true, ℕ, ◌*◌, ◌++◌, ◌+◌,
  ◌-◌, ◌<◌, ◌∷◌, ◌≡◌, ◌≢◌, ◌≤◌,
}
use trino_log_sink.Store.Row.{Row}
use trino_log_sink.Ingest.Dedupe.{dedupe}
use trino_log_sink.Ingest.Flush.{Config, Env, Flushing, dropped, enqueued, flush, observe}

-- Where the flusher goroutine stands: in the `select` of `run`, in that of `drain`, or behind both.
pub data Phase : Type 0 where
  running draining finished : Phase

pub draining≢finished : draining ≡ finished → ⊥
draining≢finished h = cc

pub running≢finished : running ≡ finished → ⊥
running≢finished h = cc

pub record Buffer (W : Type 0) : Type 0 where
  pub flushing : Flushing W
  pub open flushing use *
  pub queue : List Row
  pub stopped : Bool
  pub batch : List Row
  pub phase : Phase

module _ (e : Env) (cfg : Config) where
  open e use {World, cancel}

  -- `cap(b.ch)`
  abbrev pub capacity : ℕ
  capacity = pos_part cfg.buffer_capacity

  -- What `New` starts with.
  unfoldable pub init : World → Buffer World
  init w = record {
    flushing = record {
      world = w;
      last_flush_unix_ms = pos 0;
      last_flush_duration_ms = pos 0;
      calls = [];
    };
    queue = [];
    stopped = false;
    batch = [];
    phase = running;
  }

  -- `b.ch <- r`
  unfoldable pub sent : Row → Buffer World → Buffer World
  sent r s = record s { queue = s.queue ++ r ∷ []; flushing = observe enqueued s.flushing }

  unfoldable pub refused : Buffer World → Buffer World
  refused s = record s { flushing = observe (dropped 1) s.flushing }

  -- The closure `flush` of `run`.
  unfoldable pub flush_batch : Buffer World → Buffer World
  flush_batch s = elim s.batch [
    | [] ↦ s
    | r ∷ rs ↦ record s { flushing = flush e cfg (r ∷ rs) s.flushing; batch = [] }
  ]

  -- `r := <-b.ch`, in `run` and in `drain`, with what follows it.
  unfoldable pub received : Row → List Row → Buffer World → Buffer World
  received r queue s =
      let batch = s.batch ++ r ∷ [] in
      if leb cfg.batch_size (length batch)
      then record s { queue = queue; flushing = flush e cfg batch s.flushing; batch = [] }
      else record s { queue = queue; batch = batch }

  -- `drain` has found the channel empty: the last flush, `flushCancel` and `close(b.done)`.
  unfoldable pub ended : Buffer World → Buffer World
  unfolding flush_batch
  ended s =
      let t = flush_batch s in
      record t { flushing = record t.flushing { world = cancel t.world }; phase = finished }

  -- `Add`: Go chooses freely among the cases of a `select` that are ready, and takes `default` if none is.
  pub data Add (r : Row) (s : Buffer World) : Buffer World → Type 0 where
    send : length s.queue < capacity → Add r s (sent r s)
    closing : s.stopped ≡ true → Add r s (refused s)
    full : s.stopped ≡ false → capacity ≤ length s.queue → Add r s (refused s)

  -- The rows that deduplication takes out of a batch.
  unfoldable pub merged : List Row → ℕ
  merged batch = length batch - length (dedupe batch)

  unfoldable pub merged_on_receive : List Row → ℕ
  unfolding merged
  merged_on_receive batch = if leb cfg.batch_size (length batch) then merged batch else 0

  -- A step of the flusher goroutine or of `Close`, with the number of rows that deduplication takes out.
  pub data Work (s : Buffer World) : ℕ → Buffer World → Type 0 where
    receive :
        (r : Row) (queue : List Row)
        → s.phase ≢ finished
        → s.queue ≡ r ∷ queue
        → Work s (merged_on_receive (s.batch ++ r ∷ [])) (received r queue s)
    tick : s.phase ≡ running → Work s (merged s.batch) (flush_batch s)
    stop : s.phase ≡ running → s.stopped ≡ true → Work s 0 (record s { phase = draining })
    end : s.phase ≡ draining → s.queue ≡ [] → Work s (merged s.batch) (ended s)
    close : Work s 0 (record s { stopped = true })
    give_up_drain :
        s.stopped ≡ true
        → Work s 0 (record s { flushing = record s.flushing { world = cancel s.world } })

  -- The states that a history leads to in which `offered` rows were added, and `lost` of them were
  -- taken out by deduplication.
  pub data Reach (w : World) : ℕ → ℕ → Buffer World → Type 0 where
    start : Reach w 0 0 (init w)
    add :
        {offered lost : ℕ} {s t : Buffer World} (r : Row)
        → Reach w offered lost s
        → Add r s t
        → Reach w (suc offered) lost t
    work :
        {offered lost k : ℕ} {s t : Buffer World}
        → Reach w offered lost s
        → Work s k t
        → Reach w offered (lost + k) t
