-- ===== src/Ingest/Dedupe/Elements.antt =====
-- The rows of a deduplicated batch are rows of the batch.
use trino_log_sink.Base.{All, List, [], bytes_eq, if_intro, ◌∷◌}
use trino_log_sink.Store.Row.{Row}
use trino_log_sink.Ingest.Dedupe.{dedupe, dedupe-upsert_all, upsert, upsert_all}

module _ {κ} (P : Row → Type κ) where
  upsert-All : (r : Row) (out : List Row) → P r → All P out → All P (upsert r out)
  unfolding upsert
  upsert-All r [] p h = (p, tt)
  upsert-All r (x ∷ out) p (q, h) =
      if_intro (All P) (bytes_eq x.query_id r.query_id) (p, h) (q, upsert-All r out p h)

  upsert_all-All : (rows out : List Row) → All P rows → All P out → All P (upsert_all rows out)
  unfolding upsert_all
  upsert_all-All [] out hs h = h
  upsert_all-All (r ∷ rows) out (p, hs) h =
      upsert_all-All rows (upsert r out) hs (upsert-All r out p h)

  -- What holds of every row of a batch holds of every row of the deduplicated batch.
  pub dedupe-All : (rows : List Row) → All P rows → All P (dedupe rows)
  dedupe-All rows h = rw dedupe-upsert_all (upsert_all-All rows [] h tt)
