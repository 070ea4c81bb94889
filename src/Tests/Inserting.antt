-- ===== src/Tests/Inserting.antt =====
-- The theorem on repeated inserts into ClickHouse, at a server that loses an answer.
use trino_log_sink.Tests.Services.{service}
use trino_log_sink.Tests.Serving.{event, marshal}
use trino_log_sink.Base.{
  All, List, Option, [], arith, bytes_eq, codes, count_byte, inr, none, pos, refl, some, suc, zero,
  ℕ, ◌++◌, ◌∷◌, ◌≡◌, ◌⊎◌,
}
use trino_log_sink.Store.Row.{Row}
use trino_log_sink.Store.Errors.{Error, exception}
use trino_log_sink.Store.FromEvent.{row_from_event}
use trino_log_sink.Store.Batches.{insert_batch}
use trino_log_sink.Store.ClickHouse.Schema.{ClickHouseStore, new_clickhouse_store}
use trino_log_sink.Store.ClickHouse.Insert.{
  Driver, append_and_send, append_rows, insert, insert_chunk, send_rows, split_batch,
}
use trino_log_sink.Store.ClickHouse.Blocks.{Block, Server, has_token, record_block}
use trino_log_sink.Store.ClickHouse.Delivery.{IsNew, Stored, insert-ExactlyOnce, not_tried, tried}

-- A connection: the sends whose answers are still lost, the prepared block and the table.
abbrev Connection : Type 0
Connection = ℕ × Block × List Block

send : Connection → Connection × Option Error
unfolding record_block
send (zero, pending, table) = ((0, pending, record_block pending table), none)
send (suc n, pending, table) =
    ((n, pending, record_block pending table), some (exception (pos 210) (codes "reset")))

abbrev driver : Driver Connection
driver = record {
  prepare = λ w token stmt. ((w.0, (token, []), w.2), none);
  append_row = λ w values. ((w.0, (w.1.0, w.1.1 ++ values ∷ []), w.2), none);
  send = send;
  abort = λ w. w;
}

send_done : (w : Connection) → (send w).1 ≡ none → (send w).0.2 ≡ record_block w.1 w.2
unfolding send
send_done (zero, pending, table) h = refl
send_done (suc n, pending, table) h = cc

send_failed :
    (w : Connection) (x : Error)
    → (send w).1 ≡ some x
    → ((send w).0.2 ≡ w.2) ⊎ ((send w).0.2 ≡ record_block w.1 w.2)
unfolding send
send_failed (zero, pending, table) x h = cc
send_failed (suc n, pending, table) x h = inr refl

driver-Server : Server driver (λ w. w.2)
driver-Server = record {
  pending = λ w. w.1;
  prepare_done = λ w token stmt h. refl;
  prepare_keeps = λ w token stmt. refl;
  append_done = λ w values h. refl;
  append_keeps = λ w values. refl;
  send_done = send_done;
  send_failed = send_failed;
  abort_keeps = λ w. refl;
}

-- Every row is a chunk of its own.
abbrev clickhouse : ClickHouseStore
clickhouse = record (new_clickhouse_store service.clickhouse) { max_batch_bytes = pos 1 }

abbrev row_b : Row
row_b = record (row_from_event marshal event) { query_id = codes "b" }

abbrev row_a : Row
row_a = record (row_from_event marshal event) { query_id = codes "a" }

abbrev batch : List Row
batch = row_b ∷ row_a ∷ []

batch_chunks : split_batch clickhouse batch ≡ (row_b ∷ []) ∷ (row_a ∷ []) ∷ []
unfolding split_batch row_from_event new_clickhouse_store count_byte
batch_chunks = refl

batch-IsNew :
    All
      (IsNew (λ s. s) clickhouse driver (λ w. w.2) driver-Server (1, ([], []), []))
      (split_batch clickhouse batch)
unfolding has_token
batch-IsNew = rw batch_chunks (refl, (refl, tt))

-- The first attempt loses the answer to its first block.
lost_answer : (x : Error) × ((insert (λ s. s) clickhouse driver (1, ([], []), []) batch).1 ≡ some x)
unfolding insert insert_batch insert_chunk append_and_send append_rows send_rows send
lost_answer = rw batch_chunks (_, refl)

insert-ExactlyOnce_example :
    Stored
      (λ s. s)
      clickhouse
      driver
      (λ w. w.2)
      driver-Server
      batch
      (1, ([], []), [])
      (insert
        (λ s. s)
        clickhouse
        driver
        (insert (λ s. s) clickhouse driver (1, ([], []), []) batch).0
        batch)
unfolding bytes_eq
insert-ExactlyOnce_example =
    insert-ExactlyOnce (λ s. s) clickhouse driver (λ w. w.2) driver-Server (λ s t h. h) batch
      (1, ([], []), []) (insert (λ s. s) clickhouse driver (1, ([], []), []) batch).0
      ((refl, tt), (tt, tt)) (omega arith, (omega arith, tt)) batch-IsNew
      (tried lost_answer.0 not_tried lost_answer.1)

-- The second attempt succeeds, and the table holds both rows.
insert_example :
    (insert
      (λ s. s)
      clickhouse
      driver
      (insert (λ s. s) clickhouse driver (1, ([], []), []) batch).0
      batch).1
    ≡ none
unfolding insert insert_batch insert_chunk append_and_send append_rows send_rows send
insert_example = rw batch_chunks refl
