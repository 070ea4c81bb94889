-- ===== src/Store/ClickHouse/Token.antt =====
-- internal/store/clickhouse.go, `batchToken`: the token of a batch does not depend on the order of its rows.
pub mod Separate
use trino_log_sink.Base.{
  Bytes, List, [], ap, arith, bytes_eq, bytes_eq_comm, bytes_lt_total, bytes_lt_trans, false, refl,
  ◌∙◌, ◌∷◌, ◌≡◌,
}
use mathlib.Core.List.{Perm, Permᴰ}
use mathlib.Core.Logic.{∥∥₁_elim}
use mathlib.Core.Path.{subst}
use trino_log_sink.Store.Row.{Row}
use trino_log_sink.Ingest.Dedupe.{IsDistinct, Lacks}
use trino_log_sink.Store.ClickHouse.Insert.{batch_token, insert_row, sort_from, sorted_rows}

-- Two rows of different query ids can be inserted in either order.
insert_row_comm :
    (a b : Row) (rows : List Row)
    → bytes_eq b.query_id a.query_id ≡ false
    → insert_row a (insert_row b rows) ≡ insert_row b (insert_row a rows)
unfolding insert_row
insert_row_comm a b [] h = ground (arith, bytes_lt_total b.query_id a.query_id)
insert_row_comm a b (x ∷ rows) h = ground (
  arith,
  bytes_lt_total b.query_id a.query_id h,
  bytes_lt_trans a.query_id x.query_id b.query_id,
  bytes_lt_trans b.query_id x.query_id a.query_id,
  bytes_lt_trans a.query_id b.query_id x.query_id,
  bytes_lt_trans b.query_id a.query_id x.query_id,
  insert_row_comm a b rows h,
)

sort_from_comm :
    (a : Row) (rows sorted : List Row)
    → Lacks a.query_id rows
    → sort_from rows (insert_row a sorted) ≡ insert_row a (sort_from rows sorted)
unfolding sort_from
sort_from_comm a [] sorted h = refl
sort_from_comm a (r ∷ rows) sorted (p, h) =
    ap (sort_from rows) (insert_row_comm r a sorted (bytes_eq_comm a.query_id r.query_id ∙ p))
    ∙ sort_from_comm a rows (insert_row r sorted) h

swapped :
    (P : List Row → Type 0) {a b a' b' : Row} {l : List Row}
    → a ≡ b'
    → b ≡ a'
    → P (b ∷ a ∷ l)
    → P (a' ∷ b' ∷ l)
swapped P {b = b} {b' = b'} {l = l} e f h =
    subst (λ r. P (r ∷ b' ∷ l)) f (subst (λ r. P (b ∷ r ∷ l)) e h)

perm-Lacks : {l m : List Row} (id : Bytes) → Permᴰ l m → Lacks id l → Lacks id m
perm-Lacks id Permᴰ.nil h = h
perm-Lacks id (Permᴰ.cons e p) (k, h) =
    (subst (λ r. bytes_eq r.query_id id ≡ false) e k, perm-Lacks id p h)
perm-Lacks id (Permᴰ.swap {a = a} {b = b} {l = l} e f) (k, (k', h)) =
    swapped (Lacks id) e f (k', (k, h))
perm-Lacks id (Permᴰ.trans p q) h = perm-Lacks id q (perm-Lacks id p h)

perm-IsDistinct : {l m : List Row} → Permᴰ l m → IsDistinct l → IsDistinct m
perm-IsDistinct Permᴰ.nil h = h
perm-IsDistinct (Permᴰ.cons {b = b} {l₁ = l} e p) (k, h) =
    (perm-Lacks b.query_id p (subst (λ r. Lacks r.query_id l) e k), perm-IsDistinct p h)
perm-IsDistinct (Permᴰ.swap {a = a} {b = b} e f) ((p, k), (k', h)) =
    swapped IsDistinct e f ((bytes_eq_comm a.query_id b.query_id ∙ p, k'), (k, h))
perm-IsDistinct (Permᴰ.trans p q) h = perm-IsDistinct q (perm-IsDistinct p h)

sort_from-perm :
    {l m : List Row}
    → Permᴰ l m
    → IsDistinct l
    → (sorted : List Row) → sort_from l sorted ≡ sort_from m sorted
unfolding sort_from
sort_from-perm Permᴰ.nil h sorted = refl
sort_from-perm (Permᴰ.cons {a = a} {l₂ = m} e p) (k, h) sorted =
    sort_from-perm p h (insert_row a sorted) ∙ ap (λ r. sort_from m (insert_row r sorted)) e
sort_from-perm (Permᴰ.swap {a = a} {b = b} {l = l} e f) ((p, k), h) sorted =
    ap (sort_from l)
      (insert_row_comm b a sorted (bytes_eq_comm a.query_id b.query_id ∙ p) ∙ rw (e, f))
sort_from-perm (Permᴰ.trans p q) h sorted =
    sort_from-perm p h sorted ∙ sort_from-perm q (perm-IsDistinct p h) sorted

-- Two batches of the same rows in different orders have the same deduplication token, if no query id is
-- repeated.
pub batch_token-perm :
    (hash : Bytes → Bytes) {l m : List Row}
    → IsDistinct l
    → Perm l m
    → batch_token hash l ≡ batch_token hash m
unfolding batch_token sorted_rows
batch_token-perm hash h p = ∥∥₁_elim p (hlevel) (λ q. rw (sort_from-perm q h []))
