-- ===== src/Store/Trino/Insert.antt =====
-- internal/store/trino.go: `SplitBatch`, `InsertBatch`, `insertChunk` and `classifyInsertErr`. The
-- database is `exec`: it is given a statement's text and its arguments.
use trino_log_sink.Base.{
  Bool, Bytes, List, Option, [], bytes_eq, codes, concat, decimal, false, if◌then◌else◌, join,
  length, map, max, negsuc, none, pos, pos_part, replicate, some, suc, true, ℕ, ◌&&◌, ◌++◌, ◌-ℤ◌,
  ◌==◌, ◌||◌, ◌∷◌,
}
use trino_log_sink.Store.Row.{Arg, Row, args}
use trino_log_sink.Store.Errors.{
  Error, exception, joined, non_retryable, opaque, partial_commit, trino_error, wrapped,
}
use trino_log_sink.Store.Chunk.{chunk_rows}
use trino_log_sink.Store.Batches.{insert_batch}
use trino_log_sink.Store.Trino.Statements.{TrinoStore, comma_space}
use trino_log_sink.Store.Trino.Clamp.{clamp_row, estimate_row_bytes}

abbrev pub min_statement_budget : ℕ
min_statement_budget = 4096

starts_with : Bytes → Bytes → Bool
starts_with [] s = true
starts_with (c ∷ p) [] = false
starts_with (c ∷ p) (b ∷ s) = c == b && starts_with p s

-- `strings.Contains(s, p)`
contains : Bytes → Bytes → Bool
contains [] p = starts_with p []
contains (b ∷ s) p = starts_with p (b ∷ s) || contains s p

-- `err.Error()`
unfoldable pub message : Error → Bytes
message non_retryable = codes "non-retryable"
message (partial_commit (pos n) e) =
    decimal n ++ codes " rows committed before failure: " ++ message e
message (partial_commit (negsuc n) e) =
    b'-' ∷ decimal (suc n) ++ codes " rows committed before failure: " ++ message e
message (wrapped msg e) = msg ++ message e
message (joined e f) = message e ++ codes ": " ++ message f
message (opaque msg) = msg
message (trino_error name msg) = msg
message (exception code msg) = msg

-- `errors.As(err, &te) && te.ErrorName == "QUERY_TEXT_TOO_LARGE"`: the first `ErrTrino` in the tree.
first_name : Option Bytes → Option Bytes → Option Bytes
first_name none o = o
first_name (some n) o = some n

trino_name : Error → Option Bytes
trino_name non_retryable = none
trino_name (partial_commit n e) = trino_name e
trino_name (wrapped msg e) = trino_name e
trino_name (joined e f) = first_name (trino_name e) (trino_name f)
trino_name (opaque msg) = none
trino_name (trino_error name msg) = some name
trino_name (exception code msg) = none

is_too_large : Option Bytes → Bool
is_too_large none = false
is_too_large (some name) = bytes_eq name (codes "QUERY_TEXT_TOO_LARGE")

-- The condition of `classifyInsertErr`.
unfoldable pub is_rejection : Error → Bool
unfolding is_too_large trino_name first_name contains starts_with message bytes_eq
is_rejection e =
    is_too_large (trino_name e) || contains (message e) (codes "exceeds the maximum length")

unfoldable pub classify_insert_err : Error → Error
classify_insert_err e = if is_rejection e then joined non_retryable e else e

module _ (s : TrinoStore) where
  -- `max(s.maxStmtBytes-s.stmtOverhead, minStatementBudget)`
  unfoldable pub budget : ℕ
  budget = max (pos_part (s.max_stmt_bytes -ℤ pos s.stmt_overhead)) min_statement_budget

  unfoldable pub clamped : Row → Row
  unfolding budget
  clamped r = clamp_row (length s.row_placeholder) budget r

  -- Of no row `SplitBatch` returns nil, as packing no row does.
  unfoldable pub split_batch : List Row → List (List Row)
  unfolding budget clamped
  split_batch rows =
      chunk_rows (map clamped rows) budget (estimate_row_bytes (length s.row_placeholder))

  -- The text of the statement for a number of rows.
  unfoldable pub insert_text : ℕ → Bytes
  unfolding join
  insert_text n = s.insert_prefix ++ join (replicate n s.row_placeholder) comma_space

  module _ {W : Type 0} (exec : W → Bytes → List Arg → W × Option Error) where
    unfoldable pub insert_chunk : W → List Row → W × Option Error
    insert_chunk w rows =
        let (w', err) = exec w (insert_text (length rows)) (concat (map args rows)) in
        elim err [
          | none ↦ (w', none)
          | some x ↦ (
            w',
            some (
                wrapped (codes "insert " ++ decimal (length rows) ++ codes " rows: ")
                  (classify_insert_err x)),
          )
        ]

    unfoldable pub insert : W → List Row → W × Option Error
    unfolding insert_chunk split_batch insert_batch
    insert w rows = insert_batch insert_chunk w (split_batch rows)
