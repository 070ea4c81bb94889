-- ===== src/Ingest/Dedupe.antt =====
-- internal/ingest/buffer.go, `dedupe`: the last row of each query id, at the place of the first.
pub mod Elements
use trino_log_sink.Base.{
  All, All-append, Bool-cases, Bytes, List, Option, Option-cases, [], append-nil, append_assoc,
  arith, bytes_eq, bytes_eq_comm, bytes_eq_refl, bytes_eq→eq, false, if◌then◌else◌, inl, inr,
  length, none, refl, set, some, suc, sym, zero, ℕ, ◌++◌, ◌+◌, ◌∙◌, ◌∷◌, ◌≡◌, ◌≤◌, map,
}
use mathlib.Core.Option
use mathlib.Core.Path.{subst}
use trino_log_sink.Store.Row.{Row}

-- The map `seen`, from a query id to its place in `out`; the latest entry of a key stands first.
unfoldable pub lookup : Bytes → List (Bytes × ℕ) → Option ℕ
lookup id [] = none
lookup id ((j, i) ∷ seen) = if bytes_eq j id then some i else lookup id seen

-- The loop over `rows`, with its variables `seen` and `out`.
dedupe_loop : List Row → List (Bytes × ℕ) → List Row → List Row
dedupe_loop [] seen out = out
dedupe_loop (r ∷ rows) seen out = elim (lookup r.query_id seen) [
  | some i ↦ dedupe_loop rows seen (set out i r)
  | none ↦ dedupe_loop rows ((r.query_id, length out) ∷ seen) (out ++ r ∷ [])
]

unfoldable pub dedupe : List Row → List Row
unfolding dedupe_loop lookup
dedupe rows = dedupe_loop rows [] []

-- The specification: write a row over the row of its query id, or behind the others.
unfoldable pub upsert : Row → List Row → List Row
upsert r [] = r ∷ []
upsert r (x ∷ out) = if bytes_eq x.query_id r.query_id then r ∷ out else x ∷ upsert r out

unfoldable pub upsert_all : List Row → List Row → List Row
unfolding upsert
upsert_all [] out = out
upsert_all (r ∷ rows) out = upsert_all rows (upsert r out)

-- The place of a query id among rows.
index_of : Bytes → List Row → Option ℕ
index_of id [] = none
index_of id (x ∷ out) = if bytes_eq x.query_id id then some 0 else Option.map suc (index_of id out)

-- The row of a query id, and the last such row.
unfoldable pub find : Bytes → List Row → Option Row
find id [] = none
find id (x ∷ out) = if bytes_eq x.query_id id then some x else find id out

unfoldable pub find_last : Bytes → List Row → Option Row → Option Row
find_last id [] found = found
find_last id (x ∷ rows) found = find_last id rows (if bytes_eq x.query_id id then some x else found)

set-upsert :
    (r : Row) (out : List Row) (i : ℕ)
    → index_of r.query_id out ≡ some i
    → set out i r ≡ upsert r out
unfolding index_of upsert
set-upsert r [] i h = cc
set-upsert r (x ∷ out) zero h = ground (arith, set-upsert r out zero)
set-upsert r (x ∷ out) (suc i) h = ground (arith, set-upsert r out i)

append-upsert :
    (r : Row) (out : List Row) → index_of r.query_id out ≡ none → out ++ r ∷ [] ≡ upsert r out
unfolding index_of upsert
append-upsert r [] h = refl
append-upsert r (x ∷ out) h = ground (arith, append-upsert r out)

index_of-set :
    (id : Bytes) (r : Row) (out : List Row) (i : ℕ)
    → index_of r.query_id out ≡ some i
    → index_of id (set out i r) ≡ index_of id out
unfolding index_of
index_of-set id r [] i h = refl
index_of-set id r (x ∷ out) zero h =
    ground (arith, bytes_eq→eq x.query_id r.query_id, index_of-set id r out zero)
index_of-set id r (x ∷ out) (suc i) h = ground (arith, index_of-set id r out i)

index_of-append :
    (id : Bytes) (r : Row) (out : List Row)
    → index_of r.query_id out ≡ none
    → index_of id (out ++ r ∷ [])
      ≡ (if bytes_eq r.query_id id then some (length out) else index_of id out)
unfolding index_of
index_of-append id r [] h = ground arith
index_of-append id r (x ∷ out) h = ground (
  arith,
  bytes_eq→eq r.query_id id,
  bytes_eq→eq x.query_id id,
  bytes_eq_refl id,
  index_of-append id r out,
)

abbrev Agrees : List (Bytes × ℕ) → List Row → Type 0
Agrees seen out = (id : Bytes) → lookup id seen ≡ index_of id out

dedupe_loop-upsert_all :
    (rows : List Row) (seen : List (Bytes × ℕ)) (out : List Row)
    → Agrees seen out
    → dedupe_loop rows seen out ≡ upsert_all rows out
unfolding dedupe_loop upsert_all lookup
dedupe_loop-upsert_all [] seen out h = refl
dedupe_loop-upsert_all (r ∷ rows) seen out h = elim (Option-cases (index_of r.query_id out)) [
  | inl e ↦
      rw (h r.query_id ∙ e, dedupe_loop)
        (rw (← append-upsert r out e) (
          dedupe_loop-upsert_all rows ((r.query_id, length out) ∷ seen) (out ++ r ∷ [])
            (λ id. ground (arith, h id, index_of-append id r out e))))
  | inr (i, e) ↦
      rw (h r.query_id ∙ e, dedupe_loop)
        (rw (← set-upsert r out i e) (
          dedupe_loop-upsert_all rows seen (set out i r)
            (λ id. h id ∙ sym (index_of-set id r out i e))))
]

dedupe-upsert_all : (rows : List Row) → dedupe rows ≡ upsert_all rows []
unfolding dedupe index_of
dedupe-upsert_all rows = dedupe_loop-upsert_all rows [] [] (λ id. refl)

find-upsert :
    (id : Bytes) (r : Row) (out : List Row)
    → find id (upsert r out) ≡ (if bytes_eq r.query_id id then some r else find id out)
unfolding find upsert
find-upsert id r [] = refl
find-upsert id r (x ∷ out) = ground (
  arith,
  bytes_eq→eq x.query_id r.query_id,
  bytes_eq→eq r.query_id id,
  bytes_eq→eq x.query_id id,
  bytes_eq_refl id,
  find-upsert id r out,
)

find-upsert_all :
    (id : Bytes) (rows out : List Row)
    → find id (upsert_all rows out) ≡ find_last id rows (find id out)
unfolding find find_last upsert_all
find-upsert_all id [] out = refl
find-upsert_all id (r ∷ rows) out =
    rw (← find-upsert id r out) (find-upsert_all id rows (upsert r out))

-- For every query id, the batch that is written has exactly the last row that was buffered for it,
-- and no row for an id that no buffered row had.
pub find-dedupe : (id : Bytes) (rows : List Row) → find id (dedupe rows) ≡ find_last id rows none
unfolding find
find-dedupe id rows = rw dedupe-upsert_all (find-upsert_all id rows [])

-- No later row has the query id.
abbrev pub Lacks : Bytes → List Row → Type 0
Lacks id = All (λ x. bytes_eq x.query_id id ≡ false)

-- No two rows have one query id.
abbrev pub IsDistinct : List Row → Type 0
IsDistinct [] = Unit
IsDistinct (x ∷ out) = Lacks x.query_id out × IsDistinct out

upsert-Lacks :
    (id : Bytes) (r : Row) (out : List Row)
    → bytes_eq r.query_id id ≡ false
    → Lacks id out
    → Lacks id (upsert r out)
unfolding upsert
upsert-Lacks id r [] e h = (e, tt)
upsert-Lacks id r (x ∷ out) e h = ground (arith, upsert-Lacks id r out)

upsert-IsDistinct : (r : Row) (out : List Row) → IsDistinct out → IsDistinct (upsert r out)
unfolding upsert
upsert-IsDistinct r [] h = (tt, tt)
upsert-IsDistinct r (x ∷ out) h = elim (Bool-cases (bytes_eq x.query_id r.query_id)) [
  | inl e ↦
      rw (e, upsert) (subst (λ id. Lacks id out) (bytes_eq→eq x.query_id r.query_id e) h.0, h.1)
  | inr e ↦
      rw (e, upsert)
        (
          upsert-Lacks x.query_id r out (bytes_eq_comm r.query_id x.query_id ∙ e) h.0,
          upsert-IsDistinct r out h.1,
        )
]

upsert_all-IsDistinct : (rows out : List Row) → IsDistinct out → IsDistinct (upsert_all rows out)
unfolding upsert_all
upsert_all-IsDistinct [] out h = h
upsert_all-IsDistinct (r ∷ rows) out h =
    upsert_all-IsDistinct rows (upsert r out) (upsert-IsDistinct r out h)

-- No two rows of the batch that is written have the same query id.
pub dedupe-IsDistinct : (rows : List Row) → IsDistinct (dedupe rows)
dedupe-IsDistinct rows = rw dedupe-upsert_all (upsert_all-IsDistinct rows [] tt)

upsert_append : (r : Row) (out : List Row) → Lacks r.query_id out → upsert r out ≡ out ++ r ∷ []
unfolding upsert
upsert_append r [] h = refl
upsert_append r (x ∷ out) h = ground (arith, upsert_append r out)

-- No row of the one list has the query id of a row of the other.
abbrev Apart : List Row → List Row → Type 0
Apart out = All (λ r. Lacks r.query_id out)

Apart-snoc :
    (r : Row) (out rows : List Row)
    → Lacks r.query_id rows
    → Apart out rows
    → Apart (out ++ r ∷ []) rows
Apart-snoc r out [] h k = tt
Apart-snoc r out (x ∷ rows) (e, h) (k, ks) = (
  All-append (λ y. bytes_eq y.query_id x.query_id ≡ false) out _ k
      (bytes_eq_comm r.query_id x.query_id ∙ e, tt),
  Apart-snoc r out rows h ks,
)

upsert_all_append :
    (rows out : List Row) → IsDistinct rows → Apart out rows → upsert_all rows out ≡ out ++ rows
unfolding upsert_all
upsert_all_append [] out d h = rw append-nil
upsert_all_append (r ∷ rows) out (d, ds) (h, hs) =
    rw (
      upsert_append r out h,
      upsert_all_append rows _ ds (Apart-snoc r out rows d hs),
      append_assoc,
    )

Apart-nil : (rows : List Row) → Apart [] rows
Apart-nil [] = tt
Apart-nil (r ∷ rows) = (tt, Apart-nil rows)

-- A batch without a repeated query id is written as it is, in its order.
pub dedupe_of_distinct : (rows : List Row) → IsDistinct rows → dedupe rows ≡ rows
dedupe_of_distinct rows d = rw dedupe-upsert_all (upsert_all_append rows [] d (Apart-nil rows))

length-upsert : (r : Row) (out : List Row) → length (upsert r out) ≤ length out + 1
unfolding upsert
length-upsert r [] = omega arith
length-upsert r (x ∷ out) = ground (arith, length-upsert r out)

length-upsert_all : (rows out : List Row) → length (upsert_all rows out) ≤ length out + length rows
unfolding upsert_all
length-upsert_all [] out = omega arith
length-upsert_all (r ∷ rows) out =
    omega (arith, length-upsert_all rows (upsert r out), length-upsert r out)

pub length-dedupe : (rows : List Row) → length (dedupe rows) ≤ length rows
length-dedupe rows = rw dedupe-upsert_all (omega (arith, length-upsert_all rows []))
