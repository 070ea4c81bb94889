-- ===== src/Store/ClickHouse/Insert.antt =====
-- internal/store/clickhouse.go: `SplitBatch`, `InsertBatch`, `insertChunk`, `batchToken`, `hashArg` and
-- `classifyClickHouseErr`. The driver is a record of functions on the state of the connection.
use trino_log_sink.Base.{
  Bool, Bytes, List, Option, [], bytes_lt, codes, concat, decimal, false, if◌then◌else◌, itoa,
  length, map, negsuc, none, pos, pos_part, some, wrap_int64, ℕ, ℤ, ◌++◌, ◌+◌, ◌-ℤ◌, ◌==◌, ◌||◌,
  ◌∷◌,
}
use trino_log_sink.Event.{Time}
use trino_log_sink.Store.Row.{Arg, Row, args, int64, null, text, time}
use trino_log_sink.Store.Errors.{
  Error, exception, joined, non_retryable, opaque, partial_commit, trino_error, wrapped,
}
use trino_log_sink.Store.Chunk.{chunk_rows, estimate_arg_bytes}
use trino_log_sink.Store.Batches.{insert_batch}
use trino_log_sink.Store.ClickHouse.Schema.{ClickHouseStore}

sum_args : List Arg → ℕ
unfolding estimate_arg_bytes
sum_args [] = 0
sum_args (a ∷ rest) = estimate_arg_bytes a + sum_args rest

unfoldable pub clickhouse_row_bytes : Row → ℕ
unfolding sum_args args
clickhouse_row_bytes r = sum_args (args r)

unfoldable pub split_batch : ClickHouseStore → List Row → List (List Row)
unfolding clickhouse_row_bytes chunk_rows
split_batch s rows = chunk_rows rows (pos_part s.max_batch_bytes) clickhouse_row_bytes

-- Insertion behind the rows that are not greater, which keeps equal rows in their order.
unfoldable pub insert_row : Row → List Row → List Row
unfolding bytes_lt
insert_row r [] = r ∷ []
insert_row r (x ∷ rows) =
    if bytes_lt r.query_id x.query_id then r ∷ x ∷ rows else x ∷ insert_row r rows

unfoldable pub sort_from : List Row → List Row → List Row
unfolding insert_row
sort_from [] sorted = sorted
sort_from (r ∷ rows) sorted = sort_from rows (insert_row r sorted)

-- The rows in the order of `sort.SliceStable` by query id.
unfoldable pub sorted_rows : List Row → List Row
unfolding sort_from
sorted_rows rows = sort_from rows []

-- Nanoseconds since 1970, in int64.
unix_nano : Time → ℤ
unix_nano t = wrap_int64 (t -ℤ pos 62_135_596_800_000_000_000)

unfoldable pub hash_arg : Arg → Bytes
unfolding itoa unix_nano decimal
hash_arg null = codes "n;"
hash_arg (text s) = codes "s" ++ decimal (length s) ++ codes ":" ++ s ++ codes ";"
hash_arg (time t) = codes "t" ++ itoa (unix_nano t) ++ codes ";"
hash_arg (int64 n) = codes "i" ++ itoa n ++ codes ";"

-- `hash` is the hexadecimal SHA-256 sum.
unfoldable pub batch_token : (Bytes → Bytes) → List Row → Bytes
unfolding sorted_rows hash_arg args
batch_token hash rows = hash (concat (map (λ r. concat (map hash_arg (args r))) (sorted_rows rows)))

first_code : Option ℤ → Option ℤ → Option ℤ
first_code none o = o
first_code (some n) o = some n

-- `errors.As(err, &ex)`, by the code of the exception.
unfoldable pub as_exception : Error → Option ℤ
unfolding first_code
as_exception non_retryable = none
as_exception (partial_commit n e) = as_exception e
as_exception (wrapped msg e) = as_exception e
as_exception (joined e f) = first_code (as_exception e) (as_exception f)
as_exception (opaque msg) = none
as_exception (trino_error name msg) = none
as_exception (exception code msg) = some code

-- The map `clickhouseNonRetryableCodes`.
unfoldable pub is_fatal_code : Option ℤ → Bool
is_fatal_code none = false
is_fatal_code (some (negsuc n)) = false
is_fatal_code (some (pos n)) =
    n == 16 || n == 53 || n == 60 || n == 62 || n == 81 || n == 497 || n == 516

unfoldable pub classify_clickhouse_err : Error → Error
unfolding as_exception is_fatal_code
classify_clickhouse_err e = if is_fatal_code (as_exception e) then joined non_retryable e else e

-- `chConn.PrepareBatch` with the settings of the context, and the methods of its batch.
pub record Driver (W : Type 0) : Type 0 where
  pub prepare : W → Bytes → Bytes → W × Option Error
  pub append_row : W → List Arg → W × Option Error
  pub send : W → W × Option Error
  pub abort : W → W

module _ (hash : Bytes → Bytes) (s : ClickHouseStore) {W : Type 0} (d : Driver W) where
  open d use {prepare, append_row, send, abort}

  -- The loop over the rows of a prepared batch.
  unfoldable pub append_rows : W → List Row → W × Option Error
  unfolding classify_clickhouse_err args
  append_rows w [] = (w, none)
  append_rows w (r ∷ rows) =
      let (w', err) = append_row w (args r) in
      elim err [
        | some x ↦ (
          abort w',
          some (
              wrapped (codes "append row " ++ r.query_id ++ codes ": ")
                (classify_clickhouse_err x)),
        )
        | none ↦ append_rows w' rows
      ]

  unfoldable pub send_rows : ℕ → W → W × Option Error
  unfolding classify_clickhouse_err
  send_rows n w =
      let (w', err) = send w in
      elim err [
        | some x ↦ (
          w',
          some (
              wrapped (codes "insert " ++ decimal n ++ codes " rows: ")
                (classify_clickhouse_err x)),
        )
        | none ↦ (w', none)
      ]

  unfoldable pub append_and_send : W → List Row → W × Option Error
  unfolding append_rows send_rows
  append_and_send w rows =
      let (w', err) = append_rows w rows in
      elim err [ some x ↦ (w', some x) | none ↦ send_rows (length rows) w' ]

  unfoldable pub insert_chunk : W → List Row → W × Option Error
  unfolding append_and_send batch_token classify_clickhouse_err
  insert_chunk w rows =
      let (w', err) = prepare w (batch_token hash rows) s.insert_stmt in
      elim err [
        | some x ↦ (w', some (wrapped (codes "prepare insert: ") (classify_clickhouse_err x)))
        | none ↦ append_and_send w' rows
      ]

  unfoldable pub insert : W → List Row → W × Option Error
  unfolding insert_chunk split_batch insert_batch
  insert w rows = insert_batch insert_chunk w (split_batch s rows)
