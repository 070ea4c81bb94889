-- ===== src/Store/ClickHouse/Prune/Days.antt =====
-- internal/prune/prune.go over internal/store/clickhouse.go: the days whose partitions `prune.Run` leaves.
use trino_log_sink.Retention.{PruneError, partition_aligned_cutoff, pruned, run, run_pos}
use trino_log_sink.Settings.{ClickHouse}
use trino_log_sink.Store.Calendar.{nanos_per_day}
use trino_log_sink.Store.Calendar.Written.{last_day, partition_id-ordered}
use trino_log_sink.Store.ClickHouse.Reading.{Exec, Query}
use trino_log_sink.Store.ClickHouse.Prune.{partition_id, prune}
use trino_log_sink.Store.ClickHouse.Prune.Selected.{
  is_in, is_in-select_failing, is_in-select_passing,
}
use trino_log_sink.Store.ClickHouse.Prune.Retained.{Partitions, before, kept, prune-kept}
use trino_log_sink.Store.ClickHouse.Schema.{ClickHouseStore}
use trino_log_sink.Event.{Time}
use trino_log_sink.Store.Errors.{Error}
use trino_log_sink.Base.{
  Bytes, List, Option, ap, arith, bytes_lt, false, ltb, none, not, pos, refl, some, sym, true, ℕ,
  ◌%◌, ◌*◌, ◌+◌, ◌-ℤ◌, ◌-◌, ◌/◌, ◌<◌, ◌∙◌, ◌≡◌, ◌≤◌,
}

cutoff_of :
    (n r : ℕ)
    → r ≤ n / nanos_per_day
    → partition_aligned_cutoff (pos n) (pos r) ≡ pos (n - n % nanos_per_day - r * nanos_per_day)
unfolding partition_aligned_cutoff ◌-ℤ◌
cutoff_of n r h = ground arith

partition_id_lt :
    (n r t : ℕ)
    → n / nanos_per_day < last_day
    → t / nanos_per_day < last_day
    → r ≤ n / nanos_per_day
    → bytes_lt (partition_id (pos t)) (partition_id (partition_aligned_cutoff (pos n) (pos r)))
      ≡ ltb (t / nanos_per_day + r) (n / nanos_per_day)
unfolding partition_id
partition_id_lt n r t h k l = rw (cutoff_of n r l) (
    partition_id-ordered t (n - n % nanos_per_day - r * nanos_per_day) k (omega arith)
    ∙ ground arith)

pruned_world : {W : Type 0} (p : W × Option Error) → (pruned p).0 ≡ p.0
unfolding pruned
pruned_world (w, none) = refl
pruned_world (w, some x) = refl

pruned-none : {W : Type 0} (p : W × Option Error) → (pruned p).1 ≡ none → p.1 ≡ none
unfolding pruned
pruned-none (w, none) h = refl
pruned-none (w, some x) h = cc

module _ (quoted : Bytes → Bytes) (cfg : ClickHouse) (s : ClickHouseStore) {W : Type 0}
    (parts : W → List Bytes) (query : Query W Bytes) (exec : Exec W)
    (db : Partitions cfg s parts query exec) (w : W) (n r t : ℕ) where
  abbrev result : W × Option PruneError
  result = run (prune quoted cfg query exec s) w (pos r) (pos n)

  abbrev cutoff : Time
  cutoff = partition_aligned_cutoff (pos n) (pos r)

  result_lem : result ≡ pruned (prune quoted cfg query exec s w cutoff)
  result_lem = run_pos (prune quoted cfg query exec s) w r (pos n)

  -- Over a database that lists its partitions before the cutoff and drops the partitions that it is told to, with
  -- the time of the run and that of a row in the years 1 to 9999 and the retention not longer than the time of the
  -- run: the partition of a day within the retention is left as it is, whatever the database refuses, and that
  -- of an earlier day is gone when the run returns no error.
  pub run_keeps_days :
      n / nanos_per_day < last_day
      → t / nanos_per_day < last_day
      → r ≤ n / nanos_per_day
      → (n / nanos_per_day ≤ t / nanos_per_day + r
          → is_in (partition_id (pos t)) (parts result.0) ≡ is_in (partition_id (pos t)) (parts w))
        × (result.1 ≡ none
            → t / nanos_per_day + r < n / nanos_per_day
            → is_in (partition_id (pos t)) (parts result.0) ≡ false)
  unfolding kept
  run_keeps_days h k l =
      let (same, gone) = prune-kept quoted cfg s parts query exec db w cutoff in
      let order = partition_id_lt n r t h k l in
      let world =
        ap (λ p. parts p.0) result_lem
        ∙ ap parts (pruned_world (prune quoted cfg query exec s w cutoff)) in
      let id = partition_id (pos t) in
      let parts' = parts (prune quoted cfg query exec s w cutoff).0 in
      (
        λ i.
            let passes : not (before cutoff id) ≡ true = rw order (ground arith) in
            ap (is_in id) world
            ∙ (sym (is_in-select_passing (λ p. not (before cutoff p)) id parts' passes)
                ∙ (ap (is_in id) same
                    ∙ is_in-select_passing (λ p. not (before cutoff p)) id (parts w) passes)),
        λ e i.
            let fails : not (before cutoff id) ≡ false = rw order (ground arith) in
            ap (is_in id) world
            ∙ (ap (is_in id) (gone (pruned-none _ (sym (ap (λ p. p.1) result_lem) ∙ e)))
                ∙ is_in-select_failing (λ p. not (before cutoff p)) id (parts w) fails),
      )
