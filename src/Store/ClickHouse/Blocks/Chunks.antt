-- ===== src/Store/ClickHouse/Blocks/Chunks.antt =====
-- internal/store/clickhouse.go: the chunks of a batch of distinct query ids have blocks that do not take each other's
-- tokens.
use trino_log_sink.Base.{All, Bytes, List, [], concat, false, length, map, ◌++◌, ◌<◌, ◌∷◌, ◌≡◌}
use trino_log_sink.Store.Row.{Row}
use trino_log_sink.Ingest.Dedupe.{IsDistinct, Lacks}
use trino_log_sink.Store.ClickHouse.Schema.{ClickHouseStore}
use trino_log_sink.Store.ClickHouse.Insert.{Driver, batch_token}
use trino_log_sink.Store.ClickHouse.Token.Separate.{Apart, HasId, batch_token-separates}
use trino_log_sink.Store.ClickHouse.Blocks.{Block, Server, block_of, has_token}
use trino_log_sink.Store.ClickHouse.Blocks.Prefix.{Fresh, has_token-snoc}

Lacks-append : (id : Bytes) (l m : List Row) → Lacks id (l ++ m) → Lacks id l × Lacks id m
Lacks-append id [] m h = (tt, h)
Lacks-append id (r ∷ l) m (p, h) = let (a, b) = Lacks-append id l m h in ((p, a), b)

IsDistinct-append : (l m : List Row) → IsDistinct (l ++ m) → Apart l m × IsDistinct m
IsDistinct-append [] m h = (tt, h)
IsDistinct-append (r ∷ l) m (p, h) =
    let (a, b) = IsDistinct-append l m h in (((Lacks-append r.query_id l m p).1, a), b)

Apart-append : (l m n : List Row) → Apart l (m ++ n) → Apart l m × Apart l n
Apart-append [] m n h = (tt, tt)
Apart-append (r ∷ l) m n (p, h) =
    let (a, b) = Apart-append l m n h in
    let (c, d) = Lacks-append r.query_id m n p in ((c, a), (d, b))

Apart-chunks : (l : List Row) (cs : List (List Row)) → Apart l (concat cs) → All (Apart l) cs
Apart-chunks l [] h = tt
Apart-chunks l (c ∷ cs) h = let (a, b) = Apart-append l c (concat cs) h in (a, Apart-chunks l cs b)

HasId-append : (l m : List Row) → All HasId (l ++ m) → All HasId l × All HasId m
HasId-append [] m h = (tt, h)
HasId-append (r ∷ l) m (p, h) = let (a, b) = HasId-append l m h in ((p, a), b)

-- A chunk with rows.
abbrev pub HasRows : List Row → Type 0
HasRows c = 0 < length c

module _ (hash : Bytes → Bytes) (s : ClickHouseStore) {W : Type 0} (d : Driver W)
    (blocks : W → List Block) (server : Server d blocks) where
  abbrev pub blocks_of : List (List Row) → List Block
  blocks_of = map (block_of hash s d blocks server)

  -- A block does not take the tokens of chunks without a common query id.
  still_new :
      ((s t : Bytes) → hash s ≡ hash t → s ≡ t)
      → (c : List Row) → HasRows c
      → All HasId c
      → (table : List Block) (es : List (List Row)) → All (Apart c) es
      → All HasRows es
      → All HasId (concat es)
      → All (λ e. has_token (batch_token hash e) table ≡ false) es
      → All
          (λ e.
            has_token (batch_token hash e) (table ++ block_of hash s d blocks server c ∷ [])
            ≡ false)
          es
  still_new inj c r ids table [] a q k m = tt
  still_new inj c r ids table (e ∷ es) (a, as') (q, qs) k (m, ms) =
      let (here, more) = HasId-append e (concat es) k in
      (
        has_token-snoc (batch_token hash e) (block_of hash s d blocks server c) table m
            (batch_token-separates hash inj c e r q ids here a),
        still_new inj c r ids table es as' qs more ms,
      )

  -- The chunks of a batch have fresh blocks, if their tokens are not in the table.
  pub chunks-Fresh :
      ((s t : Bytes) → hash s ≡ hash t → s ≡ t)
      → (cs : List (List Row)) (table : List Block) → All HasRows cs
      → IsDistinct (concat cs)
      → All HasId (concat cs)
      → All (λ c. has_token (batch_token hash c) table ≡ false) cs
      → Fresh (blocks_of cs) table
  chunks-Fresh inj [] table r h i n = tt
  chunks-Fresh inj (c ∷ cs) table (r, rs) h i (n, ns) =
      let (apart, rest) = IsDistinct-append c (concat cs) h in
      let (ids, more) = HasId-append c (concat cs) i in
      (
        n,
        chunks-Fresh inj cs (table ++ block_of hash s d blocks server c ∷ []) rs rest more
            (still_new inj c r ids table cs (Apart-chunks c cs apart) rs more ns),
      )
