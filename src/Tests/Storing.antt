-- ===== src/Tests/Storing.antt =====
-- The theorems on chunks, truncation, clamping and Trino's statements.
use trino_log_sink.Base.{
  All, Bytes, List, [], ap, arith, codes, concat, decimal, false, length, map, min, none, pos, refl,
  replicate, some, suc, sym, take, zero, ℕ, ◌++◌, ◌∷◌, ◌≡◌, ◌≤◌,
}
use trino_log_sink.Store.Row.{Row}
use trino_log_sink.Store.Errors.{Error, as_partial_commit, opaque}
use trino_log_sink.Store.Chunk.{chunk_rows}
use trino_log_sink.Store.Chunk.Packing.{Fits, chunk_rows-Fits, concat-chunk_rows}
use trino_log_sink.Store.Batches.{Committed, IsAtomic, insert_batch, insert_batch-Committed}
use trino_log_sink.Store.Truncate.{
  large_fields, marker, max_small_field_bytes, rune_safe_cut, rune_start, small_fields,
  string_fields, truncate, truncate_fields,
}
use trino_log_sink.Store.Truncate.Bounds.{truncate_fields_bounds}
use trino_log_sink.Store.Truncate.Runes.{IsRune, rune_safe_cut-concat}
use trino_log_sink.Store.Trino.Statements.{build_statements}
use trino_log_sink.Store.Trino.Clamp.{clamp_row, estimate_row_bytes}
use trino_log_sink.Store.Trino.Fits.{IsAddressable, clamp_row_fits}
use trino_log_sink.Store.Trino.Delivery.{
  IsWithinBudget, clamped-IsWithinBudget, persisted, trino_env, trino_env-Contract,
}
use trino_log_sink.Ingest.Flush.Contract.{Contract}
use trino_log_sink.Tests.Samples.{
  flaky_done, flaky_exec, flaky_exec-Database, flaky_insert, flaky_rows, flaky_table, row, row_a,
  row_a', row_b, trino_config, trino_store,
}

abbrev sizes : List ℕ
sizes = 3 ∷ 4 ∷ 20 ∷ 1 ∷ 2 ∷ []

abbrev itself : ℕ → ℕ
itself n = n

chunks_of_sizes : chunk_rows sizes 8 itself ≡ (3 ∷ 4 ∷ []) ∷ (20 ∷ []) ∷ (1 ∷ 2 ∷ []) ∷ []
unfolding chunk_rows
chunks_of_sizes = refl

concat-chunk_rows_example : concat (chunk_rows sizes 8 itself) ≡ sizes
concat-chunk_rows_example = concat-chunk_rows 8 itself sizes

chunk_rows-Fits_example : All (Fits itself 8) (chunk_rows sizes 8 itself)
chunk_rows-Fits_example = chunk_rows-Fits 8 itself sizes

-- "aé", cut behind the first byte of its second rune.
abbrev runes : List Bytes
runes = (97 ∷ []) ∷ (0xc3 ∷ 0xa9 ∷ []) ∷ []

runes-IsRune : All IsRune runes
unfolding rune_start
runes-IsRune = ((refl, tt), ((refl, (refl, tt)), tt))

rune_safe_cut-concat_example :
    (k : ℕ) × (take (rune_safe_cut (concat runes) 2) (concat runes) ≡ concat (take k runes))
rune_safe_cut-concat_example = rune_safe_cut-concat runes 2 runes-IsRune (omega arith)

abbrev long_text : Bytes
long_text = replicate 60 97

truncate_long : truncate long_text (pos 40) ≡ replicate 16 97 ++ marker 44
unfolding truncate marker decimal rune_safe_cut
truncate_long = refl

truncate_fields_bounds_example :
    All (λ s. length s ≤ 40) (large_fields (truncate_fields (row (codes "a") long_text) (pos 40)))
    × All
        (λ s. length s ≤ min 40 max_small_field_bytes)
        (small_fields (truncate_fields (row (codes "a") long_text) (pos 40)))
truncate_fields_bounds_example = truncate_fields_bounds (row (codes "a") long_text) 40 (omega arith)

long_row-IsAddressable : IsAddressable (row (codes "a") long_text)
unfolding string_fields
long_row-IsAddressable = (
  omega arith,
  (
    omega arith,
    (
      omega arith,
      (
        omega arith,
        (
          omega arith,
          (
            omega arith,
            (
              omega arith,
              (
                omega arith,
                (
                  omega arith,
                  (
                    omega arith,
                    (
                      omega arith,
                      (
                        omega arith,
                        (
                          omega arith,
                          (
                            omega arith,
                            (
                              omega arith,
                              (
                                omega arith,
                                (
                                  omega arith,
                                  (omega arith, (omega arith, (omega arith, (omega arith, tt)))),
                                ),
                              ),
                            ),
                          ),
                        ),
                      ),
                    ),
                  ),
                ),
              ),
            ),
          ),
        ),
      ),
    ),
  ),
)

clamp_row_fits_example : estimate_row_bytes 83 (clamp_row 83 769 (row (codes "a") long_text)) ≤ 769
clamp_row_fits_example =
    clamp_row_fits 83 769 (row (codes "a") long_text) (omega arith) long_row-IsAddressable

clamped-IsWithinBudget_example :
    IsWithinBudget (build_statements trino_config) (row (codes "a") long_text)
clamped-IsWithinBudget_example =
    clamped-IsWithinBudget trino_config (row (codes "a") long_text) long_row-IsAddressable

trino_env-Contract_example :
    Contract
      (trino_env trino_store flaky_exec
        (λ w. false)
        (λ w. pos 0)
        (λ v w. pos 0)
        (λ d w. w)
        (λ w. w))
      (IsWithinBudget trino_store)
      (persisted trino_store)
      flaky_table
trino_env-Contract_example =
    trino_env-Contract trino_store flaky_exec flaky_table (λ w. false) (λ w. pos 0) (λ v w. pos 0)
      (λ d w. w) (λ w. w) flaky_exec-Database (λ d w. refl) (λ w. refl)

flaky_plain :
    (w : ℕ × List Row) (batch : List Row) (x : Error)
    → (flaky_insert w batch).1 ≡ some x
    → (flaky_rows (flaky_insert w batch).0 ≡ flaky_rows w) × (as_partial_commit x ≡ none)
unfolding flaky_insert as_partial_commit
flaky_plain (zero, rows) batch x h = cc
flaky_plain (suc n, rows) batch x h =
    let e : opaque (codes "down") ≡ x = cc in (refl, ap as_partial_commit (sym e))

-- A statement that appends its rows, or fails as long as the number is positive.
flaky_insert-IsAtomic : IsAtomic flaky_insert (λ r. r) flaky_rows
flaky_insert-IsAtomic = record {
  chunk_done = λ w batch h. flaky_done w batch h;
  chunk_failed = λ w batch x h. flaky_plain w batch x h;
}

insert_batch-Committed_example :
    Committed flaky_insert
      (λ r. r)
      flaky_rows
      0
      (0, [])
      (map (λ r. r) (concat ((row_a ∷ row_b ∷ []) ∷ (row_a' ∷ []) ∷ [])))
      (insert_batch flaky_insert (0, []) ((row_a ∷ row_b ∷ []) ∷ (row_a' ∷ []) ∷ []))
insert_batch-Committed_example =
    insert_batch-Committed flaky_insert (λ r. r) flaky_rows flaky_insert-IsAtomic
      ((row_a ∷ row_b ∷ []) ∷ (row_a' ∷ []) ∷ []) (0, [])
