-- ===== src/Store/Trino/Delivery.antt =====
-- The Trino backend keeps the contract of the buffer, if Trino's INSERT is atomic.
use mathlib.Core.Path.{ap₂, subst}
use trino_log_sink.Base.{
  All, Bool, Bool-cases, Bytes, List, Option, Option-cases, [], ap, arith, concat, inl, inr, length,
  length-map, map, map-map, none, pos, refl, some, ℕ, ℤ, ◌++◌, ◌∙◌, ◌∷◌, ◌≡◌, ◌≤◌,
}
use trino_log_sink.Event.{Duration}
use trino_log_sink.Store.Row.{Arg, Row, args}
use trino_log_sink.Store.Errors.{Error, as_partial_commit}
use trino_log_sink.Store.Chunk.Packing.{concat-chunk_rows}
use trino_log_sink.Store.Batches.{Committed, IsAtomic, insert_batch-Committed}
use trino_log_sink.Store.Trino.Statements.{
  TrinoConfig, TrinoStore, build_statements, length-row_placeholder,
}
use trino_log_sink.Store.Trino.Clamp.{estimate_row_bytes}
use trino_log_sink.Store.Trino.Fits.{IsAddressable, clamp_row_fits, clamp_row_fitting}
use trino_log_sink.Store.Trino.Insert.{
  budget, clamped, classify_insert_err, insert, insert_chunk, insert_text, is_rejection,
  min_statement_budget, split_batch,
}
use trino_log_sink.Ingest.Flush.{Env}
use trino_log_sink.Ingest.Flush.Contract.{Contract}

-- The database behind `exec`: an INSERT statement of the store either appends the rows whose arguments
-- it was given, or reports an error of the driver's and changes nothing. `stored` is the table, each
-- row as the values of its columns.
pub record Database (s : TrinoStore) {W : Type 0} (exec : W → Bytes → List Arg → W × Option Error)
    (stored : W → List (List Arg)) : Type 0 where
  pub exec_done :
      (w : W) (rows : List Row)
      → (exec w (insert_text s (length rows)) (concat (map args rows))).1 ≡ none
      → stored (exec w (insert_text s (length rows)) (concat (map args rows))).0
        ≡ stored w ++ map args rows
  pub exec_failed :
      (w : W) (rows : List Row) (x : Error)
      → (exec w (insert_text s (length rows)) (concat (map args rows))).1 ≡ some x
      → (stored (exec w (insert_text s (length rows)) (concat (map args rows))).0 ≡ stored w)
        × (as_partial_commit x ≡ none)

classify-plain :
    (x : Error) → as_partial_commit x ≡ none → as_partial_commit (classify_insert_err x) ≡ none
unfolding classify_insert_err as_partial_commit
classify-plain x h = elim (Bool-cases (is_rejection x)) [ inl e ↦ rw e h | inr e ↦ rw e h ]

plain_of_some :
    (a x : Error) → some a ≡ some x → as_partial_commit a ≡ none → as_partial_commit x ≡ none
plain_of_some a x e h = cc

min_statement_budget-le : (s : TrinoStore) → min_statement_budget ≤ budget s
unfolding budget
min_statement_budget-le s = omega arith

module _ (s : TrinoStore) where
  abbrev pub estimate : Row → ℕ
  estimate = estimate_row_bytes (length s.row_placeholder)

  -- The row, clamped, is within the budget of a statement.
  abbrev pub IsWithinBudget : Row → Type 0
  IsWithinBudget r = estimate (clamped s r) ≤ budget s

  -- What the table holds of a row.
  abbrev pub persisted : Row → List Arg
  persisted r = args (clamped s r)

  clamped_twice : (r : Row) → IsWithinBudget r → clamped s (clamped s r) ≡ clamped s r
  unfolding clamped
  clamped_twice r h = clamp_row_fitting (length s.row_placeholder) (budget s) (clamped s r) h

  concat-split_batch : (rows : List Row) → concat (split_batch s rows) ≡ map (clamped s) rows
  unfolding split_batch
  concat-split_batch rows = concat-chunk_rows (budget s) estimate (map (clamped s) rows)

  map-clamped :
      (rows : List Row)
      → All IsWithinBudget rows
      → (map persisted (map (clamped s) rows) ≡ map persisted rows)
        × All IsWithinBudget (map (clamped s) rows)
  map-clamped [] h = (refl, tt)
  map-clamped (r ∷ rows) (h, hs) =
      let (e, k) = map-clamped rows hs in
      let same = clamped_twice r h in (ap₂ ◌∷◌ (ap args same) e, (rw same h, k))

  module _ {W : Type 0} (exec : W → Bytes → List Arg → W × Option Error)
      (stored : W → List (List Arg)) (db : Database s exec stored) where
    abbrev executed : W → List Row → W × Option Error
    executed w rows = exec w (insert_text s (length rows)) (concat (map args rows))

    chunk_done :
        (w : W) (rows : List Row)
        → (insert_chunk s exec w rows).1 ≡ none
        → stored (insert_chunk s exec w rows).0 ≡ stored w ++ map args rows
    unfolding insert_chunk
    chunk_done w rows h = elim (Option-cases (executed w rows).1) [
      | inl p ↦ rw (p, insert_chunk) (db.exec_done w rows p)
      | inr (x, p) ↦ let h' = rw (p, insert_chunk) at h in cc
    ]

    chunk_failed :
        (w : W) (rows : List Row) (x : Error)
        → (insert_chunk s exec w rows).1 ≡ some x
        → (stored (insert_chunk s exec w rows).0 ≡ stored w) × (as_partial_commit x ≡ none)
    unfolding insert_chunk as_partial_commit
    chunk_failed w rows x h = elim (Option-cases (executed w rows).1) [
      | inl p ↦ let h' = rw (p, insert_chunk) at h in cc
      | inr (y, p) ↦
          let (same, plain) = db.exec_failed w rows y p in
          let h' = rw (p, insert_chunk) at h in
          (rw (p, insert_chunk) same, plain_of_some _ x h' (classify-plain y plain))
    ]

    insert_chunk-IsAtomic : IsAtomic (insert_chunk s exec) args stored
    insert_chunk-IsAtomic = record { chunk_done = chunk_done; chunk_failed = chunk_failed }

    insert-Committed :
        (w : W) (rows : List Row)
        → Committed
            (insert_chunk s exec)
            args
            stored
            0
            w
            (map persisted rows)
            (insert s exec w rows)
    unfolding insert
    insert-Committed w rows =
        subst (λ vs. Committed (insert_chunk s exec) args stored 0 w vs (insert s exec w rows))
          (ap (map args) (concat-split_batch rows) ∙ map-map args (clamped s) rows)
          (insert_batch-Committed (insert_chunk s exec) args stored insert_chunk-IsAtomic
            (split_batch s rows) w)

  -- The writer that the buffer sees, over a database; the rest of the environment is given.
  abbrev pub trino_env :
      {W : Type 0} (exec : W → Bytes → List Arg → W × Option Error)
      → (W → Bool)
      → (W → ℤ)
      → (W → W → ℤ)
      → (Duration → W → W)
      → (W → W)
      → Env
  trino_env {W} exec canceled unix_ms elapsed_ms wait cancel = record {
    World = W;
    insert_batch = λ d w rows. insert s exec w rows;
    split_batch = some (split_batch s);
    canceled = canceled;
    unix_ms = unix_ms;
    elapsed_ms = elapsed_ms;
    wait = wait;
    cancel = cancel;
  }

  -- The Trino backend, over a database with atomic inserts that waiting and cancelling do not change,
  -- keeps the contract of the buffer for the rows that are within the budget when clamped.
  pub trino_env-Contract :
      {W : Type 0} (exec : W → Bytes → List Arg → W × Option Error) (stored : W → List (List Arg))
      (canceled : W → Bool) (unix_ms : W → ℤ) (elapsed_ms : W → W → ℤ) (wait : Duration → W → W)
      (cancel : W → W)
      → Database s exec stored
      → ((d : Duration) (w : W) → stored (wait d w) ≡ stored w)
      → ((w : W) → stored (cancel w) ≡ stored w)
      → Contract
          (trino_env exec canceled unix_ms elapsed_ms wait cancel)
          IsWithinBudget
          persisted
          stored
  trino_env-Contract exec stored canceled unix_ms elapsed_ms wait cancel db wk ck = record {
    split_keeps = λ f e rows h.
        let same : split_batch s ≡ f = cc in
        subst
          (λ (g : List Row → List (List Row)).
            (map persisted (concat (g rows)) ≡ map persisted rows)
            × All IsWithinBudget (concat (g rows)))
          same (rw (concat-split_batch rows) (map-clamped rows h));
    insert_done = λ d w rows h p. (insert-Committed exec stored db w rows).all_stored p;
    insert_failed = λ d w rows x h p.
        let (n, count, le, written) = (insert-Committed exec stored db w rows).prefix_stored x p in
        (n, count ∙ ap pos (omega arith), omega (arith, length-map persisted rows), written);
    wait_keeps = wk;
    cancel_keeps = ck;
  }

-- The rows whose texts are shorter than 2 ^ 47 bytes are within the budget when clamped, in every store
-- that `NewTrino` builds.
pub clamped-IsWithinBudget :
    (cfg : TrinoConfig) (r : Row) → IsAddressable r → IsWithinBudget (build_statements cfg) r
unfolding clamped
clamped-IsWithinBudget cfg r h =
    let s = build_statements cfg in
    clamp_row_fits (length s.row_placeholder) (budget s) r
      (omega (arith, length-row_placeholder cfg, min_statement_budget-le s)) h
