-- ===== src/Store/ClickHouse/Delivery.antt =====
-- internal/store/clickhouse.go: `InsertBatch`, tried again and again over a server that drops repeated tokens, writes
-- every row once.
use trino_log_sink.Base.{
  All, All-imp, Bytes, List, Option, Option-cases, [], ap, append-nil, arith, concat, false, inl,
  inr, length, map, map-take, max, none, pos_part, refl, some, suc, sym, take, take-length, zero, ℕ,
  ◌++◌, ◌+◌, ◌∙◌, ◌∷◌, ◌≡◌, ◌≤◌, ◌⊎◌,
}
use mathlib.Core.List.{map-append}
use mathlib.Core.Path.{subst}
use trino_log_sink.Store.Row.{Row, args}
use trino_log_sink.Store.Errors.{Error}
use trino_log_sink.Store.Chunk.Packing.{chunk_rows-Fits, concat-chunk_rows}
use trino_log_sink.Store.Batches.{insert_batch, insert_from}
use trino_log_sink.Ingest.Dedupe.{IsDistinct}
use trino_log_sink.Store.ClickHouse.Schema.{ClickHouseStore}
use trino_log_sink.Store.ClickHouse.Insert.{
  Driver, batch_token, clickhouse_row_bytes, insert, insert_chunk, split_batch,
}
use trino_log_sink.Store.ClickHouse.Token.Separate.{HasId}
use trino_log_sink.Store.ClickHouse.Blocks.{
  Block, Server, block_of, has_token, insert_chunk-Recorded, table_rows,
}
use trino_log_sink.Store.ClickHouse.Blocks.Prefix.{
  Fresh, record_all, record_all-take, table_rows-append,
}
use trino_log_sink.Store.ClickHouse.Blocks.Chunks.{blocks_of, chunks-Fresh}

take_ge : {A : Type 0} (n : ℕ) (xs : List A) → length xs ≤ n → take n xs ≡ xs
take_ge zero [] h = refl
take_ge zero (x ∷ xs) h = absurd (omega arith)
take_ge (suc n) [] h = refl
take_ge (suc n) (x ∷ xs) h = ap (◌∷◌ x) (take_ge n xs (omega arith))

module _ (hash : Bytes → Bytes) (s : ClickHouseStore) {W : Type 0} (d : Driver W)
    (blocks : W → List Block) (server : Server d blocks) where
  -- The token of a chunk is not in the table.
  abbrev pub IsNew : W → List Row → Type 0
  IsNew w c = has_token (batch_token hash c) (blocks w) ≡ false

  -- What the loop over the chunks has recorded: all of them, or the first ones.
  record Loop (cs : List (List Row)) (w : W) (r : W × Option Error) : Type 0 where
    all_recorded :
        r.1 ≡ none → blocks r.0 ≡ record_all (blocks_of hash s d blocks server cs) (blocks w)
    some_recorded :
        (x : Error)
        → r.1 ≡ some x
        → (j : ℕ) × (blocks r.0
            ≡ record_all (take j (blocks_of hash s d blocks server cs)) (blocks w))

  insert_from-Loop :
      (cs : List (List Row)) (w : W) (committed : ℕ)
      → Loop cs w (insert_from (insert_chunk hash s d) w committed cs)
  unfolding insert_from record_all
  insert_from-Loop [] w k = record { all_recorded = λ h. refl; some_recorded = λ x h. cc }
  insert_from-Loop (c ∷ cs) w k =
      let w' = (insert_chunk hash s d w c).0 in
      let first = insert_chunk-Recorded hash s d blocks server w c in
      elim (Option-cases (insert_chunk hash s d w c).1) [
        | inl p ↦
            let e = first.is_recorded p in
            let rest = insert_from-Loop cs w' (k + length c) in
            rw (p, insert_from)
              (record {
                all_recorded = λ h.
                    rest.all_recorded h ∙ ap (record_all (blocks_of hash s d blocks server cs)) e;
                some_recorded = λ x h.
                    let (j, q) = rest.some_recorded x h in
                    (suc j, q ∙ ap (record_all (take j (blocks_of hash s d blocks server cs))) e);
              })
        | inr (x, p) ↦
            rw (p, insert_from)
              (record {
                all_recorded = λ h. cc;
                some_recorded =
                    λ y h. elim (first.maybe_recorded x p) [ inl e ↦ (0, e) | inr e ↦ (1, e) ];
              })
      ]

  -- The states that a batch leaves while `InsertBatch` fails for it and it is tried again; in between, what does not
  -- write to the table may happen.
  pub data Retried (rows : List Row) (w : W) : W → Type 0 where
    not_tried : Retried rows w w
    tried :
        {w' : W} (x : Error)
        → Retried rows w w'
        → (insert hash s d w' rows).1 ≡ some x
        → Retried rows w (insert hash s d w' rows).0
    waited : {w' w'' : W} → Retried rows w w' → blocks w'' ≡ blocks w' → Retried rows w w''

  insert-Loop : (w : W) (rows : List Row) → Loop (split_batch s rows) w (insert hash s d w rows)
  unfolding insert insert_batch
  insert-Loop w rows = insert_from-Loop (split_batch s rows) w 0

  Retried-take :
      (rows : List Row) (w : W) {w' : W}
      → Fresh (blocks_of hash s d blocks server (split_batch s rows)) (blocks w)
      → Retried rows w w'
      → (k : ℕ) × (blocks w'
          ≡ blocks w ++ take k (blocks_of hash s d blocks server (split_batch s rows)))
  Retried-take rows w f not_tried = (0, sym (append-nil (blocks w)))
  Retried-take rows w f (tried {w' = v} x r p) =
      let bs = blocks_of hash s d blocks server (split_batch s rows) in
      let (k, e) = Retried-take rows w f r in
      let (j, q) = (insert-Loop v rows).some_recorded x p in
      (max j k, q ∙ (ap (record_all (take j bs)) e ∙ record_all-take bs (blocks w) j k f))
  Retried-take rows w f (waited r e) = let (k, q) = Retried-take rows w f r in (k, e ∙ q)

  table_rows-blocks_of :
      (cs : List (List Row))
      → table_rows (blocks_of hash s d blocks server cs) ≡ map args (concat cs)
  unfolding table_rows
  table_rows-blocks_of [] = refl
  table_rows-blocks_of (c ∷ cs) =
      ap (λ rs. map args c ++ rs) (table_rows-blocks_of cs) ∙ sym (map-append args c (concat cs))

  all_of : (bs : List Block) (k : ℕ) → take (max (length bs) k) bs ≡ bs
  all_of bs k = take_ge (max (length bs) k) bs (omega arith)

  split_batch-Fresh :
      ((s t : Bytes) → hash s ≡ hash t → s ≡ t)
      → (rows : List Row) (w : W) → IsDistinct rows
      → All HasId rows
      → All (IsNew w) (split_batch s rows)
      → Fresh (blocks_of hash s d blocks server (split_batch s rows)) (blocks w)
  unfolding split_batch
  split_batch-Fresh inj rows w h i n =
      let same = concat-chunk_rows (pos_part s.max_batch_bytes) clickhouse_row_bytes rows in
      chunks-Fresh hash s d blocks server inj (split_batch s rows) (blocks w)
        (All-imp (λ c p. p.0) (split_batch s rows)
          (chunk_rows-Fits (pos_part s.max_batch_bytes) clickhouse_row_bytes rows))
        (subst IsDistinct (sym same) h) (subst (All HasId) (sym same) i) n

  -- What an attempt has left in the table, behind the rows that it held before the first attempt: it fails, and the
  -- first chunks are in the table, or succeeds, and the whole batch is.
  abbrev pub Stored : List Row → W → W × Option Error → Type 0
  Stored rows w r =
      ((x : Error) × (r.1 ≡ some x)
        × ((k : ℕ) × (table_rows (blocks r.0)
              ≡ table_rows (blocks w) ++ map args (concat (take k (split_batch s rows))))))
      ⊎ ((r.1 ≡ none) × (table_rows (blocks r.0) ≡ table_rows (blocks w) ++ map args rows))

  table_rows-chunks :
      (v : W) (w : W) (cs : List (List Row))
      → blocks v ≡ blocks w ++ blocks_of hash s d blocks server cs
      → table_rows (blocks v) ≡ table_rows (blocks w) ++ map args (concat cs)
  table_rows-chunks v w cs e =
      ap table_rows e
      ∙ (table_rows-append (blocks w) (blocks_of hash s d blocks server cs)
          ∙ ap (λ rs. table_rows (blocks w) ++ rs) (table_rows-blocks_of cs))

  -- An attempt that succeeds leaves the blocks of all chunks.
  whole_batch :
      (rows : List Row) (w w' : W)
      → Fresh (blocks_of hash s d blocks server (split_batch s rows)) (blocks w)
      → Retried rows w w'
      → (insert hash s d w' rows).1 ≡ none
      → blocks (insert hash s d w' rows).0
        ≡ blocks w ++ blocks_of hash s d blocks server (split_batch s rows)
  whole_batch rows w w' f r p =
      let bs = blocks_of hash s d blocks server (split_batch s rows) in
      let (k, e) = Retried-take rows w f r in
      let all : take (length bs) bs ≡ bs = take-length bs in
      (insert-Loop w' rows).all_recorded p
      ∙ (ap (λ x. record_all x (blocks w')) (sym all)
          ∙ (ap (record_all (take (length bs) bs)) e
              ∙ (record_all-take bs (blocks w) (length bs) k f
                  ∙ ap (λ x. blocks w ++ x) (all_of bs k))))

  -- Over a server that drops a block whose token it has, and with a hash without collisions: InsertBatch is called
  -- again and again, while it fails, for a batch of distinct query ids whose chunks' tokens were not in the table,
  -- where a failed call may have recorded the block whose answer was lost. A further call that fails leaves the rows of
  -- the first chunks in the table behind what it held, each once, and a further call that succeeds all rows of the batch,
  -- in their order and once.
  pub insert-ExactlyOnce :
      ((s t : Bytes) → hash s ≡ hash t → s ≡ t)
      → (rows : List Row) (w w' : W) → IsDistinct rows
      → All HasId rows
      → All (IsNew w) (split_batch s rows)
      → Retried rows w w'
      → Stored rows w (insert hash s d w' rows)
  unfolding split_batch
  insert-ExactlyOnce inj rows w w' h i n r =
      let cs = split_batch s rows in
      let f = split_batch-Fresh inj rows w h i n in
      elim (Option-cases (insert hash s d w' rows).1) [
        | inl p ↦ inr (
          p,
          table_rows-chunks (insert hash s d w' rows).0 w cs (whole_batch rows w w' f r p)
              ∙ ap (λ rs. table_rows (blocks w) ++ map args rs)
                  (concat-chunk_rows (pos_part s.max_batch_bytes) clickhouse_row_bytes rows),
        )
        | inr (x, p) ↦
            let (k, e) = Retried-take rows w f (tried x r p) in
            inl (
              x,
              p,
              (
                k,
                table_rows-chunks (insert hash s d w' rows).0 w (take k cs) (
                    e
                    ∙ ap (λ y. blocks w ++ y)
                        (sym (map-take (block_of hash s d blocks server) k cs))),
              ),
            )
      ]
