-- ===== src/Store/ClickHouse/Prune.antt =====
-- internal/store/clickhouse.go: `Prune`, `partitionsBefore`, `partitionID`, `dropPartitionStmt`, `Optimize`
-- and `Maintain`.
pub mod Selected
pub mod Retained
pub mod Days
use trino_log_sink.Base.{
  Bool, Bytes, List, Option, [], codes, if◌then◌else◌, leb, length, none, some, true, ◌&&◌, ◌++◌,
  ◌==◌, ◌∷◌,
}
use trino_log_sink.Event.{Time}
use trino_log_sink.Settings.{ClickHouse}
use trino_log_sink.Store.Row.{text}
use trino_log_sink.Store.Errors.{Error, opaque, wrapped}
use trino_log_sink.Store.Cursor.{Pair, failed, ok, scan_loop, Result, Rows}
use trino_log_sink.Store.Calendar.Civil.{compact_date, rfc3339}
use trino_log_sink.Store.Query.{Predicate}
use trino_log_sink.Store.ClickHouse.Schema.{ClickHouseStore}
use trino_log_sink.Store.ClickHouse.Reading.{CallContext, Exec, Query, clickhouse_where}

unfoldable pub partition_id : Time → Bytes
unfolding compact_date
partition_id day = compact_date day

unfoldable pub drop_partition_stmt : Bytes → Bytes → Bytes
drop_partition_stmt table id =
    codes "ALTER TABLE " ++ table ++ codes " DROP PARTITION ID '" ++ id ++ codes "'"

all_digits : Bytes → Bool
all_digits [] = true
all_digits (c ∷ s) = leb b'0' c && leb c b'9' && all_digits s

-- `partitionIDPattern`: eight digits.
unfoldable pub is_partition_id : Bytes → Bool
unfolding all_digits
is_partition_id id = length id == 8 && all_digits id

-- The predicates and the text of the query for the partitions.
unfoldable pub partition_predicates : ClickHouse → Time → List Predicate
unfolding partition_id
partition_predicates cfg cutoff =
    record { column = codes "database"; op = codes "="; value = text cfg.database }
    ∷ record { column = codes "table"; op = codes "="; value = text cfg.table }
    ∷ record { column = codes "partition_id"; op = codes "<"; value = text (partition_id cutoff) }
    ∷ []

unfoldable pub partitions_text : ClickHouse → Time → Bytes
unfolding partition_predicates clickhouse_where
partitions_text cfg cutoff =
    codes "SELECT DISTINCT partition_id FROM system.parts"
    ++ (clickhouse_where (partition_predicates cfg cutoff)).0
    ++ codes " AND active ORDER BY partition_id"

unfoldable pub partitions_context : ClickHouse → Time → CallContext
unfolding partition_predicates clickhouse_where
partitions_context cfg cutoff = record {
  settings = [];
  params = (clickhouse_where (partition_predicates cfg cutoff)).1;
}

-- `quoted` is the form `%q` of a text.
module _ (quoted : Bytes → Bytes) (cfg : ClickHouse) {W : Type 0} (query : Query W Bytes)
    (exec : Exec W) where
  unfoldable pub check_partition : Bytes → Option Error
  unfolding is_partition_id
  check_partition id =
      if is_partition_id id
      then none
      else some (opaque (codes "unexpected partition id " ++ quoted id))

  unfoldable pub partition_rows : Result (Rows Bytes) → Pair Bytes
  unfolding check_partition scan_loop
  partition_rows (failed e) = ([], some e)
  partition_rows (ok rows) = scan_loop check_partition rows.scans rows.rows_err []

  unfoldable pub partitions_before : W → Time → W × Pair Bytes
  unfolding partitions_text partitions_context partition_rows
  partitions_before w cutoff =
      let (w', answer) = query w (partitions_context cfg cutoff) (partitions_text cfg cutoff) in
      (w', partition_rows answer)

  unfoldable pub drop_partitions : Bytes → W → List Bytes → W × Option Error
  unfolding drop_partition_stmt
  drop_partitions table w [] = (w, none)
  drop_partitions table w (id ∷ ids) =
      let (w', err) = exec w (drop_partition_stmt table id) in
      let rest = drop_partitions table w' ids in
      elim err [
        | some e ↦ (w', some (wrapped (codes "drop partition " ++ id ++ codes ": ") e))
        | none ↦ rest
      ]

  -- The rest of `Prune` for the results of `partitionsBefore`.
  unfoldable pub drop_listed : Bytes → W → Time → List Bytes → Option Error → W × Option Error
  unfolding drop_partitions rfc3339
  drop_listed table w older_than ids none = drop_partitions table w ids
  drop_listed table w older_than ids (some e) =
      (w, some (wrapped (codes "prune rows older than " ++ rfc3339 older_than ++ codes ": ") e))

  unfoldable pub prune : ClickHouseStore → W → Time → W × Option Error
  unfolding partitions_before drop_listed
  prune s w older_than =
      let (w', (ids, err)) = partitions_before w older_than in
      drop_listed s.table w' older_than ids err

-- `Optimize` and `Maintain` do nothing.
unfoldable pub optimize : {W : Type 0} → W → Time → W × Option Error
optimize w since = (w, none)

unfoldable pub maintain : {W : Type 0} → W → Bytes → W × Option Error
maintain w retention_threshold = (w, none)
