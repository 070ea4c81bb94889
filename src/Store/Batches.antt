-- ===== src/Store/Batches.antt =====
-- The loop of `InsertBatch`, which both backends have in the same words, and the contract that it
-- keeps with the buffer if one chunk is written whole or not at all.
use mathlib.Core.List.{map-append}
use trino_log_sink.Base.{
  List, Option, Option-cases, [], ap, append-nil, append_assoc, arith, concat, if◌then◌else◌, inl,
  inr, length, length-append, length-map, ltb, map, none, pos, refl, some, suc, sym, take,
  take-append_all, zero, ℕ, ◌++◌, ◌+◌, ◌∙◌, ◌∷◌, ◌≡◌, ◌≤◌, lt→ltb,
}
use trino_log_sink.Store.Row.{Row}
use trino_log_sink.Store.Errors.{Error, as_partial_commit, committed_rows, or_zero, partial_commit}

module _ {W : Type 0} (insert_chunk : W → List Row → W × Option Error) where
  -- `&PartialCommitError{...}` if a chunk is committed, else the error itself.
  partial_error : ℕ → Error → Error
  partial_error committed x = if ltb 0 committed then partial_commit (pos committed) x else x

  unfoldable pub insert_from : W → ℕ → List (List Row) → W × Option Error
  unfolding partial_error
  insert_from w committed [] = (w, none)
  insert_from w committed (chunk ∷ chunks) =
      let (w', err) = insert_chunk w chunk in
      elim err [
        | some x ↦ (w', some (partial_error committed x))
        | none ↦ insert_from w' (committed + length chunk) chunks
      ]

  unfoldable pub insert_batch : W → List (List Row) → W × Option Error
  unfolding insert_from
  insert_batch w chunks = insert_from w 0 chunks

  module _ {V : Type 0} (view : Row → V) (stored : W → List V) where
    -- One statement is atomic: it appends its rows, or fails with nothing written and no count.
    pub record IsAtomic : Type 0 where
      pub chunk_done :
          (w : W) (rows : List Row)
          → (insert_chunk w rows).1 ≡ none
          → stored (insert_chunk w rows).0 ≡ stored w ++ map view rows
      pub chunk_failed :
          (w : W) (rows : List Row) (x : Error)
          → (insert_chunk w rows).1 ≡ some x
          → (stored (insert_chunk w rows).0 ≡ stored w) × (as_partial_commit x ≡ none)

    -- What the loop has done, from `committed` rows before it.
    pub record Committed (committed : ℕ) (w : W) (rows : List V) (r : W × Option Error)
        : Type 0 where
      pub all_stored : r.1 ≡ none → stored r.0 ≡ stored w ++ rows
      pub prefix_stored :
          (x : Error)
          → r.1 ≡ some x
          → (n : ℕ) × (committed_rows x ≡ pos (committed + n))
            × (n ≤ length rows)
            × (stored r.0 ≡ stored w ++ take n rows)

    partial_error-committed :
        (committed : ℕ) (x : Error)
        → as_partial_commit x ≡ none
        → committed_rows (partial_error committed x) ≡ pos committed
    unfolding partial_error committed_rows
    partial_error-committed zero x h = rw (h, or_zero) refl
    partial_error-committed (suc n) x h = rw (lt→ltb 0 (suc n) (omega arith)) refl

    Committed-done :
        (xs ys : List V) (k n : ℕ) (w w' : W) (r : W × Option Error)
        → n ≡ length xs
        → stored w' ≡ stored w ++ xs
        → Committed (k + n) w' ys r
        → Committed k w (xs ++ ys) r
    Committed-done xs ys k n w w' r en ew h = record {
      all_stored = λ p. h.all_stored p ∙ rw (ew, append_assoc);
      prefix_stored = λ x p.
          let (m, count, le, written) = h.prefix_stored x p in
          (
            length xs + m,
            count ∙ ap pos (omega arith),
            omega (arith, length-append xs ys),
            simp (written, ew, take-append_all xs ys m, append_assoc),
          );
    }

    Committed-failed :
        (xs : List V) (k : ℕ) (w w' : W) (x : Error)
        → stored w' ≡ stored w
        → as_partial_commit x ≡ none
        → Committed k w xs (w', some (partial_error k x))
    Committed-failed xs k w w' x ew h = record {
      all_stored = λ p. cc;
      prefix_stored = λ y p.
          let e : partial_error k x ≡ y = cc in
          (
            0,
            ap committed_rows (sym e) ∙ partial_error-committed k x h ∙ ap pos (omega arith),
            omega arith,
            ew ∙ sym (append-nil (stored w)),
          );
    }

    insert_from-Committed :
        IsAtomic
        → (chunks : List (List Row)) (w : W) (committed : ℕ)
        → Committed committed w (map view (concat chunks)) (insert_from w committed chunks)
    unfolding insert_from
    insert_from-Committed a [] w k = record {
      all_stored = λ _. sym (append-nil (stored w));
      prefix_stored = λ x h. cc;
    }
    insert_from-Committed a (c ∷ chunks) w k =
        let (w', err) = insert_chunk w c in
        elim (Option-cases err) [
          | inl p ↦
              rw (p, insert_from, map-append view c (concat chunks))
                (Committed-done (map view c) (map view (concat chunks)) k (length c) w w' _
                  (sym (length-map view c)) (a.chunk_done w c p)
                  (insert_from-Committed a chunks w' (k + length c)))
          | inr (x, p) ↦
              let (same, plain) = a.chunk_failed w c x p in
              rw (p, insert_from) (Committed-failed _ k w w' x same plain)
        ]

    -- `InsertBatch` over atomic statements: with no error the rows of all chunks are stored; with an
    -- error exactly the rows that the error counts as committed are, and they are the first ones.
    pub insert_batch-Committed :
        IsAtomic
        → (chunks : List (List Row)) (w : W)
        → Committed 0 w (map view (concat chunks)) (insert_batch w chunks)
    unfolding insert_batch
    insert_batch-Committed a chunks w = insert_from-Committed a chunks w 0
