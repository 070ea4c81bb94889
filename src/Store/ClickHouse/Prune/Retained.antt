-- ===== src/Store/ClickHouse/Prune/Retained.antt =====
-- internal/store/clickhouse.go, `Prune`: the partitions that are dropped, in a database that answers the
-- query for partitions and drops them as ClickHouse documents.
use mathlib.Core.Path.{subst}
use trino_log_sink.Store.ClickHouse.Prune.Selected.{
  All-remove_all, remove, remove_all, select, select-All, select-is_in, select-remove,
  select_passing,
}
use trino_log_sink.Store.Cursor.Complete.{scan_loop-none}
use trino_log_sink.Store.Cursor.{Result, Rows, failed, ok}
use trino_log_sink.Event.{Time}
use trino_log_sink.Store.Errors.{Error}
use trino_log_sink.Store.Cursor.{Result, Rows, failed, ok}
use trino_log_sink.Store.ClickHouse.Schema.{ClickHouseStore}
use trino_log_sink.Store.ClickHouse.Reading.{CallContext, Exec, Query}
use trino_log_sink.Store.ClickHouse.Prune.{
  check_partition, drop_listed, drop_partition_stmt, drop_partitions, partition_id, partition_rows,
  partitions_before, partitions_context, partitions_text, prune,
}
use trino_log_sink.Base.{
  All, All-imp, Bool, Bytes, List, Option, Option-cases, [], ap, bytes_lt, false, inl, inr, map,
  none, not, refl, some, sym, true, ◌∙◌, ◌∷◌, ◌≡◌, ◌⊎◌,
}
use trino_log_sink.Settings.{ClickHouse}

abbrev pub before : Time → Bytes → Bool
before cutoff id = bytes_lt id (partition_id cutoff)

-- The partitions that a pruning leaves.
unfoldable pub kept : Time → List Bytes → List Bytes
kept cutoff ps = select (λ p. not (before cutoff p)) ps

module _ (cfg : ClickHouse) (s : ClickHouseStore) {W : Type 0} where
  -- The database: `parts` are its active partitions, each once. A query changes none of them; its rows,
  -- when none fails, are the partitions before the cutoff. A drop that fails may have been done or not.
  pub record Partitions (parts : W → List Bytes) (query : Query W Bytes) (exec : Exec W)
      : Type 0 where
    pub query_keeps : (w : W) (c : CallContext) (stmt : Bytes) → parts (query w c stmt).0 ≡ parts w
    pub query_lists :
        (w : W) (cutoff : Time) (rows : Rows Bytes) (ids : List Bytes)
        → (query w (partitions_context cfg cutoff) (partitions_text cfg cutoff)).1 ≡ ok rows
        → rows.scans ≡ map ok ids
        → rows.rows_err ≡ none
        → ids ≡ select (before cutoff) (parts w)
    pub drop_removes :
        (w : W) (id : Bytes)
        → (exec w (drop_partition_stmt s.table id)).1 ≡ none
        → parts (exec w (drop_partition_stmt s.table id)).0 ≡ remove id (parts w)
    pub drop_fails :
        (w : W) (id : Bytes)
        → (parts (exec w (drop_partition_stmt s.table id)).0 ≡ parts w)
          ⊎ (parts (exec w (drop_partition_stmt s.table id)).0 ≡ remove id (parts w))

kept_passing :
    (cutoff : Time) (ps : List Bytes) → All (λ p. before cutoff p ≡ false) ps → kept cutoff ps ≡ ps
unfolding kept
kept_passing cutoff ps h =
    select_passing (λ p. not (before cutoff p)) ps (All-imp (λ p e. rw e refl) ps h)

module _ (quoted : Bytes → Bytes) (cfg : ClickHouse) (s : ClickHouseStore) {W : Type 0}
    (parts : W → List Bytes) (query : Query W Bytes) (exec : Exec W)
    (db : Partitions cfg s parts query exec) where
  drop_kept :
      (cutoff : Time) (w : W) (id : Bytes)
      → before cutoff id ≡ true
      → kept cutoff (parts (exec w (drop_partition_stmt s.table id)).0) ≡ kept cutoff (parts w)
  unfolding kept
  drop_kept cutoff w id h = elim (db.drop_fails w id) [
    | inl e ↦ ap (kept cutoff) e
    | inr e ↦
        ap (kept cutoff) e ∙ select-remove (λ p. not (before cutoff p)) id (parts w) (rw h refl)
  ]

  kept-drop_partitions :
      (cutoff : Time) (w : W) (ids : List Bytes)
      → All (λ id. before cutoff id ≡ true) ids
      → kept cutoff (parts (drop_partitions quoted cfg query exec s.table w ids).0)
        ≡ kept cutoff (parts w)
  unfolding drop_partitions
  kept-drop_partitions cutoff w [] h = refl
  kept-drop_partitions cutoff w (id ∷ ids) (h, hs) =
      elim (Option-cases (exec w (drop_partition_stmt s.table id)).1) [
        | inl e ↦
            rw (e, drop_partitions)
              (kept-drop_partitions cutoff (exec w (drop_partition_stmt s.table id)).0 ids hs
                ∙ drop_kept cutoff w id h)
        | inr (x, e) ↦ rw (e, drop_partitions) (drop_kept cutoff w id h)
      ]

  drop_partitions_removes :
      (w : W) (ids : List Bytes)
      → (drop_partitions quoted cfg query exec s.table w ids).1 ≡ none
      → parts (drop_partitions quoted cfg query exec s.table w ids).0 ≡ remove_all ids (parts w)
  unfolding drop_partitions remove_all
  drop_partitions_removes w [] h = refl
  drop_partitions_removes w (id ∷ ids) h =
      elim (Option-cases (exec w (drop_partition_stmt s.table id)).1) [
        | inl e ↦
            rw (e, drop_partitions)
              (drop_partitions_removes (exec w (drop_partition_stmt s.table id)).0 ids
                  (rw (e, drop_partitions) at h)
                ∙ ap (remove_all ids) (db.drop_removes w id e))
        | inr (x, e) ↦ let k = rw (e, drop_partitions) at h in cc
      ]

  -- The partitions that are dropped are those before the cutoff, and all of them.
  Listed : W → Time → List Bytes → Type 0
  Listed w cutoff ids = ids ≡ select (before cutoff) (parts w)

  partition_rows-Listed :
      (w : W) (cutoff : Time) (answer : Result (Rows Bytes))
      → (query w (partitions_context cfg cutoff) (partitions_text cfg cutoff)).1 ≡ answer
      → (partition_rows quoted cfg query exec answer).1 ≡ none
      → Listed w cutoff (partition_rows quoted cfg query exec answer).0
  unfolding partition_rows Listed
  partition_rows-Listed w cutoff (failed e) h k = cc
  partition_rows-Listed w cutoff (ok rows) h k =
      let (ids, i, l, p, j) =
        scan_loop-none (check_partition quoted cfg query exec) rows.scans rows.rows_err [] k in
      j ∙ db.query_lists w cutoff rows ids h i l

  kept-drop_listed :
      (w w' : W) (cutoff : Time) (ids : List Bytes) (err : Option Error)
      → parts w' ≡ parts w
      → (err ≡ none → Listed w cutoff ids)
      → kept cutoff (parts (drop_listed quoted cfg query exec s.table w' cutoff ids err).0)
        ≡ kept cutoff (parts w)
  unfolding drop_listed Listed
  kept-drop_listed w w' cutoff ids (some e) h k = ap (kept cutoff) h
  kept-drop_listed w w' cutoff ids none h k =
      kept-drop_partitions cutoff w' ids (
        subst (All (λ id. before cutoff id ≡ true)) (sym (k refl))
          (select-All (before cutoff) (parts w)))
      ∙ ap (kept cutoff) h

  drop_listed_complete :
      (w w' : W) (cutoff : Time) (ids : List Bytes) (err : Option Error)
      → parts w' ≡ parts w
      → (err ≡ none → Listed w cutoff ids)
      → (drop_listed quoted cfg query exec s.table w' cutoff ids err).1 ≡ none
      → All
          (λ p. before cutoff p ≡ false)
          (parts (drop_listed quoted cfg query exec s.table w' cutoff ids err).0)
  unfolding drop_listed Listed
  drop_listed_complete w w' cutoff ids (some e) h k l = cc
  drop_listed_complete w w' cutoff ids none h k l =
      subst (All (λ p. before cutoff p ≡ false))
        (ap (remove_all ids) (sym h) ∙ sym (drop_partitions_removes w' ids l))
        (All-remove_all (before cutoff) ids (parts w)
          (rw (k refl) (select-is_in (before cutoff) (parts w))))

  -- Over a database that lists its partitions before the cutoff and drops the partitions that it is told to,
  -- a pruning leaves every partition from the cutoff on, whatever the database refuses, and leaves these
  -- only when it returns no error.
  pub prune-kept :
      (w : W) (cutoff : Time)
      → (kept cutoff (parts (prune quoted cfg query exec s w cutoff).0) ≡ kept cutoff (parts w))
        × ((prune quoted cfg query exec s w cutoff).1 ≡ none
            → parts (prune quoted cfg query exec s w cutoff).0 ≡ kept cutoff (parts w))
  unfolding prune partitions_before
  prune-kept w cutoff =
      let (w', answer) = query w (partitions_context cfg cutoff) (partitions_text cfg cutoff) in
      let listing = partition_rows-Listed w cutoff answer refl in
      let keeps = db.query_keeps w (partitions_context cfg cutoff) (partitions_text cfg cutoff) in
      let (ids, err) = partition_rows quoted cfg query exec answer in
      let same = kept-drop_listed w w' cutoff ids err keeps listing in
      (
        same,
        λ l.
            sym (kept_passing cutoff _ (drop_listed_complete w w' cutoff ids err keeps listing l))
            ∙ same,
      )
