-- ===== src/Ingest/Flush/Contract.antt =====
-- The contract of `store.Store` with the buffer, and what one attempt to insert has done under it.
use mathlib.Core.List.{map-append}
use mathlib.Core.Path.{subst}
use trino_log_sink.Base.{
  List, Option, Option-cases, [], ap, append-nil, append_assoc, arith, concat, inl, inr, length,
  length-append, length-map, map, none, pos, pos_+ℤ, refl, some, sym, take, take-append_all,
  take-append_le, ℕ, ℤ, ◌++◌, ◌+◌, ◌∙◌, ◌∷◌, ◌≡◌, ◌≤◌, All, All-of-append,
}
use trino_log_sink.Event.{Duration}
use trino_log_sink.Store.Row.{Row}
use trino_log_sink.Store.Errors.{Error, committed_rows}
use trino_log_sink.Ingest.Flush.{Config, Env, clamp, insert, insert_chunks, or_one_batch, split}

-- `InsertBatch` appends the whole batch, or fails behind the rows that the error reports as
-- committed. `view` is what the store keeps of a row; the parts of a split batch, in their order, are
-- the batch as far as `view` shows. The store promises this for rows that are `Ok`, and splits a
-- batch of such rows into such rows.
pub record Contract (e : Env) {V : Type 0} (Ok : Row → Type 0) (view : Row → V)
    (stored : e.World → List V) : Type 0 where
  pub split_keeps :
      (s : List Row → List (List Row))
      → e.split_batch ≡ some s
      → (rows : List Row) → All Ok rows
      → (map view (concat (s rows)) ≡ map view rows) × All Ok (concat (s rows))
  pub insert_done :
      (d : Duration) (w : e.World) (rows : List Row)
      → All Ok rows
      → (e.insert_batch d w rows).1 ≡ none
      → stored (e.insert_batch d w rows).0 ≡ stored w ++ map view rows
  pub insert_failed :
      (d : Duration) (w : e.World) (rows : List Row) (x : Error)
      → All Ok rows
      → (e.insert_batch d w rows).1 ≡ some x
      → (n : ℕ) × (committed_rows x ≡ pos n)
        × (n ≤ length rows)
        × (stored (e.insert_batch d w rows).0 ≡ stored w ++ take n (map view rows))
  pub wait_keeps : (d : Duration) (w : e.World) → stored (e.wait d w) ≡ stored w
  pub cancel_keeps : (w : e.World) → stored (e.cancel w) ≡ stored w

module _ (e : Env) (cfg : Config) {V : Type 0} (Ok : Row → Type 0) (view : Row → V)
    (stored : e.World → List V) (c : Contract e Ok view stored) where
  open e use {World, insert_batch, split_batch, canceled, wait}

  -- The chunks are the rows, as far as `view` shows, and are `Ok`.
  abbrev Parts : List Row → List (List Row) → Type 0
  Parts rows chunks = (map view (concat chunks) ≡ map view rows) × All Ok (concat chunks)

  one_batch-Parts : (rows : List Row) → All Ok rows → Parts rows (rows ∷ [])
  one_batch-Parts rows h = rw (append-nil rows) (refl, h)

  or_one_batch-Parts :
      (rows : List Row) (chunks : List (List Row))
      → All Ok rows
      → Parts rows chunks
      → Parts rows (or_one_batch rows chunks)
  unfolding or_one_batch
  or_one_batch-Parts rows [] h k = one_batch-Parts rows h
  or_one_batch-Parts rows (d ∷ chunks) h k = k

  split-Parts : (rows : List Row) → All Ok rows → Parts rows (split e cfg rows)
  unfolding split
  split-Parts rows h = elim (Option-cases split_batch) [
    | inl p ↦ rw (p, split) (one_batch-Parts rows h)
    | inr (s, p) ↦ rw (p, split) (or_one_batch-Parts rows (s rows) h (c.split_keeps s p rows h))
  ]

  -- What the loop of `insert` has stored of the chunks, and counted.
  pub record Inserted (rows : List V) (k : ℕ) (w : World) (r : World × ℤ × Option Error)
      : Type 0 where
    pub more : ℕ
    pub more_le : more ≤ length rows
    pub counted : r.1 ≡ pos (k + more)
    pub written : stored r.0 ≡ stored w ++ take more rows
    pub complete : r.2 ≡ none → more ≡ length rows

  Inserted-done :
      (xs ys : List V) (k n : ℕ) (w w' : World) (r : World × ℤ × Option Error)
      → n ≡ length xs
      → stored w' ≡ stored w ++ xs
      → Inserted ys (k + n) w' r
      → Inserted (xs ++ ys) k w r
  Inserted-done xs ys k n w w' r en ew h = record {
    more = length xs + h.more;
    more_le = omega (arith, length-append xs ys, h.more_le);
    counted = h.counted ∙ ap pos (omega arith);
    written = simp (h.written, ew, take-append_all xs ys h.more, append_assoc);
    complete = λ p. omega (arith, length-append xs ys, h.complete p);
  }

  Inserted-failed :
      (xs ys : List V) (k n : ℕ) (w w' : World) (x : Error)
      → n ≤ length xs
      → stored w' ≡ stored w ++ take n xs
      → Inserted (xs ++ ys) k w (w', pos (k + n), some x)
  Inserted-failed xs ys k n w w' x le ew = record {
    more = n;
    more_le = omega (arith, length-append xs ys);
    counted = refl;
    written = rw (take-append_le n xs ys le) ew;
    complete = λ p. cc;
  }

  insert_chunks-Inserted :
      (chunks : List (List Row)) (w : World) (k : ℕ)
      → All Ok (concat chunks)
      → Inserted (map view (concat chunks)) k w (insert_chunks e cfg w k chunks)
  unfolding insert_chunks
  insert_chunks-Inserted [] w k h = record {
    more = 0;
    more_le = omega arith;
    counted = ap pos (omega arith);
    written = sym (append-nil (stored w));
    complete = λ _. refl;
  }
  insert_chunks-Inserted (d ∷ chunks) w k h =
      let (hd, hs) = All-of-append Ok d (concat chunks) h in
      let (w', err) = insert_batch cfg.flush_timeout w d in
      elim (Option-cases err) [
        | inl p ↦
            rw (p, insert_chunks, map-append view d (concat chunks))
              (Inserted-done (map view d) (map view (concat chunks)) k (length d) w w' _
                (sym (length-map view d)) (c.insert_done cfg.flush_timeout w d hd p)
                (insert_chunks-Inserted chunks w' (k + length d) hs))
        | inr (x, p) ↦
            let (n, count, le, written) = c.insert_failed cfg.flush_timeout w d x hd p in
            rw (p, insert_chunks, map-append view d (concat chunks), count, pos_+ℤ k n)
              (Inserted-failed (map view d) (map view (concat chunks)) k n w w' x
                (omega (arith, length-map view d)) written)
      ]

  -- One attempt: a prefix of the rows is stored and counted; all of them, if there is no error.
  pub insert-Inserted :
      (w : World) (rows : List Row)
      → All Ok rows
      → Inserted (map view rows) 0 w (insert e cfg w rows)
  unfolding insert
  insert-Inserted w rows h =
      let (same, parts) = split-Parts rows h in
      subst (λ xs. Inserted xs 0 w (insert_chunks e cfg w 0 (split e cfg rows))) same
        (insert_chunks-Inserted (split e cfg rows) w 0 parts)

  pub clamp-Inserted :
      (w : World) (rows : List Row) (h : Inserted (map view rows) 0 w (insert e cfg w rows))
      → clamp e cfg (insert e cfg w rows).1 rows ≡ h.more
  unfolding clamp
  clamp-Inserted w rows h = rw h.counted (omega (arith, h.more_le, length-map view rows))
