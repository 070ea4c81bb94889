-- ===== src/Store/ClickHouse/Blocks.antt =====
-- internal/store/clickhouse.go: a table that drops a block whose `insert_deduplication_token` it has, and what
-- `insertChunk` does to it.
pub mod Prefix
pub mod Chunks
use trino_log_sink.Base.{
  Bool, Bytes, List, Option, Option-cases, [], ap, append-nil, append_assoc, bytes_eq, false,
  if◌then◌else◌, inl, inr, length, map, none, refl, some, sym, ℕ, ◌++◌, ◌||◌, ◌∙◌, ◌∷◌, ◌≡◌, ◌⊎◌,
}
use trino_log_sink.Store.Row.{Arg, Row, args}
use trino_log_sink.Store.Errors.{Error}
use trino_log_sink.Store.ClickHouse.Schema.{ClickHouseStore}
use trino_log_sink.Store.ClickHouse.Insert.{
  Driver, append_and_send, append_rows, batch_token, insert_chunk, send_rows,
}

-- A block of inserted rows, behind the token of its insert.
abbrev pub Block : Type 0
Block = Bytes × List (List Arg)

unfoldable pub has_token : Bytes → List Block → Bool
unfolding bytes_eq
has_token token [] = false
has_token token ((t, rows) ∷ blocks) = bytes_eq t token || has_token token blocks

-- The documentation of `insert_deduplication_token`: a block whose token is among those of the deduplication window
-- is dropped.
unfoldable pub record_block : Block → List Block → List Block
unfolding has_token
record_block b blocks = if has_token b.0 blocks then blocks else blocks ++ b ∷ []

-- The rows of the table.
unfoldable pub table_rows : List Block → List (List Arg)
table_rows [] = []
table_rows ((t, rows) ∷ blocks) = rows ++ table_rows blocks

-- The server behind the driver, while its window holds the tokens of all blocks: a prepared batch keeps its token
-- and collects the rows that are appended, and sending it records its block. A send that fails may have recorded
-- the block, when only the answer is lost; nothing else writes.
pub record Server {W : Type 0} (d : Driver W) (blocks : W → List Block) : Type 0 where
  pub pending : W → Block
  pub prepare_done :
      (w : W) (token stmt : Bytes)
      → (d.prepare w token stmt).1 ≡ none
      → pending (d.prepare w token stmt).0 ≡ (token, [])
  pub prepare_keeps : (w : W) (token stmt : Bytes) → blocks (d.prepare w token stmt).0 ≡ blocks w
  pub append_done :
      (w : W) (values : List Arg)
      → (d.append_row w values).1 ≡ none
      → pending (d.append_row w values).0 ≡ ((pending w).0, (pending w).1 ++ values ∷ [])
  pub append_keeps : (w : W) (values : List Arg) → blocks (d.append_row w values).0 ≡ blocks w
  pub send_done :
      (w : W) → (d.send w).1 ≡ none → blocks (d.send w).0 ≡ record_block (pending w) (blocks w)
  pub send_failed :
      (w : W) (x : Error)
      → (d.send w).1 ≡ some x
      → (blocks (d.send w).0 ≡ blocks w)
        ⊎ (blocks (d.send w).0 ≡ record_block (pending w) (blocks w))
  pub abort_keeps : (w : W) → blocks (d.abort w) ≡ blocks w

module _ (hash : Bytes → Bytes) (s : ClickHouseStore) {W : Type 0} (d : Driver W)
    (blocks : W → List Block) (server : Server d blocks) where
  -- The block of a chunk of rows.
  abbrev pub block_of : List Row → Block
  block_of rows = (batch_token hash rows, map args rows)

  -- An insert of a block has recorded it, or has failed, with the block recorded or not.
  pub record Recorded (b : Block) (w : W) (r : W × Option Error) : Type 0 where
    pub is_recorded : r.1 ≡ none → blocks r.0 ≡ record_block b (blocks w)
    pub maybe_recorded :
        (x : Error)
        → r.1 ≡ some x
        → (blocks r.0 ≡ blocks w) ⊎ (blocks r.0 ≡ record_block b (blocks w))

  Recorded-failed :
      (b : Block) (w w' : W) (x : Error) → blocks w' ≡ blocks w → Recorded b w (w', some x)
  Recorded-failed b w w' x e = record { is_recorded = λ h. cc; maybe_recorded = λ y h. inl e }

  send_rows-Recorded :
      (n : ℕ) (b : Block) (w₀ w : W)
      → blocks w ≡ blocks w₀
      → server.pending w ≡ b
      → Recorded b w₀ (send_rows hash s d n w)
  unfolding send_rows
  send_rows-Recorded n b w₀ w e p = elim (Option-cases (d.send w).1) [
    | inl q ↦
        rw (q, send_rows)
          (record {
            is_recorded = λ h. server.send_done w q ∙ rw (e, p) refl;
            maybe_recorded = λ x h. cc;
          })
    | inr (x, q) ↦
        rw (q, send_rows)
          (record {
            is_recorded = λ h. cc;
            maybe_recorded = λ y h. elim (server.send_failed w x q) [
              | inl k ↦ inl (k ∙ e)
              | inr k ↦ inr (k ∙ rw (e, p) refl)
            ];
          })
  ]

  append_rows-blocks : (rows : List Row) (w : W) → blocks (append_rows hash s d w rows).0 ≡ blocks w
  unfolding append_rows
  append_rows-blocks [] w = refl
  append_rows-blocks (r ∷ rows) w =
      let w' = (d.append_row w (args r)).0 in
      elim (Option-cases (d.append_row w (args r)).1) [
        | inl p ↦ rw (p, append_rows) (append_rows-blocks rows w' ∙ server.append_keeps w (args r))
        | inr (x, p) ↦ rw (p, append_rows) (server.abort_keeps w' ∙ server.append_keeps w (args r))
      ]

  -- The loop collects its rows behind those that the batch has.
  append_rows-pending :
      (rows : List Row) (w : W) (token : Bytes) (vs : List (List Arg))
      → server.pending w ≡ (token, vs)
      → (append_rows hash s d w rows).1 ≡ none
      → server.pending (append_rows hash s d w rows).0 ≡ (token, vs ++ map args rows)
  unfolding append_rows
  append_rows-pending [] w token vs e h = e ∙ ap (λ x. (token, x)) (sym (append-nil vs))
  append_rows-pending (r ∷ rows) w token vs e h =
      let w' = (d.append_row w (args r)).0 in
      elim (Option-cases (d.append_row w (args r)).1) [
        | inl p ↦
            let next : server.pending w' ≡ (token, vs ++ args r ∷ []) =
              server.append_done w (args r) p ∙ ap (λ b. (b.0, b.1 ++ args r ∷ [])) e in
            rw (p, append_rows)
              (append_rows-pending rows w' token (vs ++ args r ∷ []) next (rw (p, append_rows) at h)
                ∙ ap (λ x. (token, x)) (append_assoc vs (args r ∷ []) (map args rows)))
        | inr (x, p) ↦ let k = rw (p, append_rows) at h in cc
      ]

  append_and_send-Recorded :
      (rows : List Row) (token : Bytes) (w₀ w : W)
      → blocks w ≡ blocks w₀
      → server.pending w ≡ (token, [])
      → Recorded (token, map args rows) w₀ (append_and_send hash s d w rows)
  unfolding append_and_send
  append_and_send-Recorded rows token w₀ w e empty =
      elim (Option-cases (append_rows hash s d w rows).1) [
        | inl p ↦
            rw (p, append_and_send)
              (send_rows-Recorded (length rows) (token, map args rows) w₀ _
                (append_rows-blocks rows w ∙ e) (append_rows-pending rows w token [] empty p))
        | inr (x, p) ↦
            rw (p, append_and_send) (Recorded-failed _ w₀ _ x (append_rows-blocks rows w ∙ e))
      ]

  pub insert_chunk-Recorded :
      (w : W) (rows : List Row) → Recorded (block_of rows) w (insert_chunk hash s d w rows)
  unfolding insert_chunk
  insert_chunk-Recorded w rows =
      let token = batch_token hash rows in
      let same = server.prepare_keeps w token s.insert_stmt in
      elim (Option-cases (d.prepare w token s.insert_stmt).1) [
        | inl p ↦
            rw (p, insert_chunk)
              (append_and_send-Recorded rows token w (d.prepare w token s.insert_stmt).0 same
                (server.prepare_done w token s.insert_stmt p))
        | inr (x, p) ↦ rw (p, insert_chunk) (Recorded-failed _ w _ _ same)
      ]
