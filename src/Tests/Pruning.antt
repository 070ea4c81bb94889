-- ===== src/Tests/Pruning.antt =====
-- The theorems on ClickHouse's partitions, listings and tokens.
use trino_log_sink.Ingest.Dedupe.{IsDistinct}
use trino_log_sink.Tests.Samples.{row_a, row_b}
use trino_log_sink.Store.ClickHouse.Prune.Retained.{Partitions}
use trino_log_sink.Store.ClickHouse.Token.{batch_token-perm}
use trino_log_sink.Store.Calendar.{nanos_per_day}
use trino_log_sink.Store.Cursor.Complete.{list_rows_complete}
use trino_log_sink.Store.ClickHouse.Prune.Days.{run_keeps_days}
use trino_log_sink.Retention.{run}
use trino_log_sink.Store.ClickHouse.Prune.Selected.{is_in, remove, select}
use trino_log_sink.Base.{
  Bytes, List, [], ap, arith, bytes_eq, bytes_lt, codes, drop, false, inr, map, none, pos, refl,
  sym, ℕ, ◌*◌, ◌++◌, ◌+◌, ◌-ℤ◌, ◌<◌, ◌↔◌, ◌∙◌, ◌∷◌, ◌≡◌, ◌≤◌, Option, some,
}
use mathlib.Core.List.Perm
use trino_log_sink.Event.{Time}
use trino_log_sink.Settings.{ClickHouse}
use trino_log_sink.Store.Cursor.{Result, Rows, failed, list_rows, ok}
use trino_log_sink.Store.ClickHouse.Schema.{ClickHouseStore}
use trino_log_sink.Store.ClickHouse.Escape.{unescape, unescape-clickhouse_param_value}
use trino_log_sink.Store.ClickHouse.Insert.{batch_token}
use trino_log_sink.Store.ClickHouse.Reading.{
  Exec, Parameters, Query, clickhouse_param, clickhouse_where, param_value, where_parts,
}
use trino_log_sink.Store.ClickHouse.Prune.{
  drop_partition_stmt, partition_id, partition_predicates, partitions_context, prune,
}
use trino_log_sink.Store.ClickHouse.Prune.Selected.{is_in, remove, select}

abbrev config : ClickHouse
config = record {
  addr = codes "localhost:9000";
  user = codes "default";
  password = [];
  database = codes "logs";
  table = codes "queries";
  tls = false;
  tls_ca = [];
  tls_insecure = false;
  dial_timeout = pos 0;
  query_timeout = pos 0;
  max_batch_bytes = pos 0;
}

abbrev store : ClickHouseStore
store = record {
  table = codes "t";
  insert_stmt = [];
  summary_select = [];
  row_select = [];
  max_batch_bytes = pos 0;
}

-- The value of the third parameter, as the database reads it.
text_or_empty : Option Bytes → Bytes
text_or_empty none = []
text_or_empty (some s) = s

third : Parameters → Bytes
third [] = []
third (p ∷ []) = []
third (p ∷ q ∷ []) = []
third (p ∷ q ∷ (name, value) ∷ ps) = text_or_empty (unescape value)

-- The text without its last byte.
without_last : Bytes → Bytes
without_last [] = []
without_last (c ∷ []) = []
without_last (c ∷ d ∷ s) = c ∷ without_last (d ∷ s)

without_last-append : (s : Bytes) (c : ℕ) → without_last (s ++ c ∷ []) ≡ s
unfolding without_last
without_last-append [] c = refl
without_last-append (a ∷ []) c = refl
without_last-append (a ∷ b ∷ s) c = ap (◌∷◌ a) (without_last-append (b ∷ s) c)

-- A database that is the list of its partitions.
sample_query : Query (List Bytes) Bytes
unfolding select third
sample_query w c stmt = (
  w,
  ok record {
    scans = map ok (select (λ id. bytes_lt id (third c.params)) w);
    rows_err = none;
    close_err = none;
  },
)

sample_exec : Exec (List Bytes)
unfolding remove without_last
sample_exec w stmt = (remove (without_last (drop 33 stmt)) w, none)

unwrap : Result Bytes → Bytes
unwrap (ok s) = s
unwrap (failed e) = []

unwrap-ok : (ids : List Bytes) → map unwrap (map ok ids) ≡ ids
unfolding unwrap
unwrap-ok [] = refl
unwrap-ok (id ∷ ids) = ap (◌∷◌ id) (unwrap-ok ids)

scans_of : Result (Rows Bytes) → List (Result Bytes)
scans_of (ok rows) = rows.scans
scans_of (failed e) = []

sample_drop :
    (w : List Bytes) (id : Bytes)
    → (sample_exec w (drop_partition_stmt store.table id)).0 ≡ remove id w
unfolding sample_exec drop_partition_stmt
sample_drop w id = ap (λ s. remove s w) (without_last-append id b'\'')

sample_third :
    (cutoff : Time) → third (partitions_context config cutoff).params ≡ partition_id cutoff
unfolding third partitions_context partition_predicates clickhouse_where where_parts
    clickhouse_param param_value text_or_empty
sample_third cutoff = ap text_or_empty (unescape-clickhouse_param_value (partition_id cutoff))

sample-Partitions : Partitions config store (λ w. w) sample_query sample_exec
unfolding sample_query scans_of
sample-Partitions = record {
  query_keeps = λ w c stmt. refl;
  query_lists = λ w cutoff rows ids h i k.
      sym (unwrap-ok ids)
      ∙ ap (map unwrap) (sym i ∙ ap (λ r. scans_of r) (sym h))
      ∙ unwrap-ok (select (λ id. bytes_lt id (third (partitions_context config cutoff).params)) w)
      ∙ ap (λ c. select (λ id. bytes_lt id c) w) (sample_third cutoff);
  drop_removes = λ w id h. sample_drop w id;
  drop_fails = λ w id. inr (sample_drop w id);
}

abbrev three_days : List Bytes
three_days = codes "20240228" ∷ codes "20240229" ∷ codes "20240301" ∷ []

-- The partition of the day before the cutoff is dropped.
prune_example :
    prune (λ s. s) config sample_query sample_exec store three_days (pos (738_944 * nanos_per_day))
    ≡ (codes "20240229" ∷ codes "20240301" ∷ [], none)
unfolding prune sample_query sample_exec bytes_lt unescape text_or_empty ◌-ℤ◌ bytes_eq
prune_example = refl

-- A run on March 1 of 2024 that keeps a day: the partition of February 29.
run_keeps_days_example :
    (738_945 ≤ 738_944 + 1
      → is_in
          (partition_id (pos (738_944 * nanos_per_day)))
          (run
            (prune (λ s. s) config sample_query sample_exec store)
            three_days
            (pos 1)
            (pos (738_945 * nanos_per_day + 5))).0
        ≡ is_in (partition_id (pos (738_944 * nanos_per_day))) three_days)
    × ((run
            (prune (λ s. s) config sample_query sample_exec store)
            three_days
            (pos 1)
            (pos (738_945 * nanos_per_day + 5))).1
          ≡ none
        → 738_944 + 1 < 738_945
        → is_in
            (partition_id (pos (738_944 * nanos_per_day)))
            (run
              (prune (λ s. s) config sample_query sample_exec store)
              three_days
              (pos 1)
              (pos (738_945 * nanos_per_day + 5))).0
          ≡ false)
run_keeps_days_example =
    run_keeps_days (λ s. s) config store (λ w. w) sample_query sample_exec sample-Partitions
      three_days (738_945 * nanos_per_day + 5) 1 (738_944 * nanos_per_day) (omega arith)
      (omega arith) (omega arith)

abbrev two_rows : Rows ℕ
two_rows = record { scans = ok 1 ∷ ok 2 ∷ []; rows_err = none; close_err = none }

list_rows_complete_example :
    (list_rows two_rows ≡ (1 ∷ 2 ∷ [], none))
    ↔ ((two_rows.scans ≡ map ok (1 ∷ 2 ∷ [])) × (two_rows.rows_err ≡ none))
list_rows_complete_example = list_rows_complete two_rows (1 ∷ 2 ∷ [])

two_rows-IsDistinct : IsDistinct (row_a ∷ row_b ∷ [])
unfolding bytes_eq
two_rows-IsDistinct = ((refl, tt), (tt, tt))

batch_token-perm_example :
    batch_token (λ s. s) (row_a ∷ row_b ∷ []) ≡ batch_token (λ s. s) (row_b ∷ row_a ∷ [])
batch_token-perm_example = batch_token-perm (λ s. s) two_rows-IsDistinct (Perm.swap row_b row_a [])
