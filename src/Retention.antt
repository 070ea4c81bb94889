-- ===== src/Retention.antt =====
-- internal/prune/prune.go, and `optimizeWindowStart` of cmd/trino-query-log-sink/main.go: the days that are
-- deleted and compacted.
use trino_log_sink.Base.{
  +ℤ_parts, -ℤ_parts, Option, arith, if◌then◌else◌, ltb_ℤ, max_ℤ, negsuc, none, pos, refl, some,
  suc, ℕ, ℤ, ◌%◌, ◌*◌, ◌+ℤ◌, ◌+◌, ◌-ℤ◌, ◌-◌, ◌/◌, ◌<◌, ◌≡◌, ◌≤ℤ◌, ◌≤◌, le→not-ltb,
}
use trino_log_sink.Event.{Time}
use trino_log_sink.Store.Calendar.{nanos_per_day}
use trino_log_sink.Store.Errors.{Error}

-- The midnight in UTC at or before a time.
unfoldable pub start_of_utc_day : Time → Time
start_of_utc_day (pos n) = pos (n - n % nanos_per_day)
start_of_utc_day (negsuc n) = pos 0 -ℤ pos ((n + nanos_per_day) / nanos_per_day * nanos_per_day)

-- The int that k days are, for `AddDate`.
days : ℤ → ℤ
days (pos n) = pos (n * nanos_per_day)
days (negsuc n) = pos 0 -ℤ pos (suc n * nanos_per_day)

unfoldable pub partition_aligned_cutoff : Time → ℤ → Time
unfolding start_of_utc_day days
partition_aligned_cutoff now retention_days = start_of_utc_day now -ℤ days retention_days

-- The failures of `prune.Run`.
pub data PruneError : Type 0 where
  negative_retention : ℤ → PruneError
  prune_failed : Error → PruneError

-- The error of the store's `Prune`, wrapped.
unfoldable pub pruned : {W : Type 0} → W × Option Error → W × Option PruneError
pruned (w, none) = (w, none)
pruned (w, some x) = (w, some (prune_failed x))

-- `Run`, with the store's `Prune` as a function on the world.
unfoldable pub run :
    {W : Type 0} → (W → Time → W × Option Error) → W → ℤ → Time → W × Option PruneError
unfolding partition_aligned_cutoff pruned
run prune w retention_days now =
    if ltb_ℤ retention_days (pos 0)
    then (w, some (negative_retention retention_days))
    else pruned (prune w (partition_aligned_cutoff now retention_days))

unfoldable pub optimize_window_start : Time → ℤ → Time
unfolding start_of_utc_day days
optimize_window_start now optimize_days =
    start_of_utc_day now -ℤ days (max_ℤ optimize_days (pos 1) -ℤ pos 1)

-- A run with a retention that is not negative.
pub run_pos :
    {W : Type 0} (prune : W → Time → W × Option Error) (w : W) (r : ℕ) (now : Time)
    → run prune w (pos r) now ≡ pruned (prune w (partition_aligned_cutoff now (pos r)))
unfolding run
run_pos prune w r now = rw (le→not-ltb (r + 0) 0 (omega arith)) refl

-- The start of a day is not after the time, and less than a day before it.
start_of_utc_day-bounds :
    (n : ℕ) → (m : ℕ) × (start_of_utc_day (pos n) ≡ pos m) × (m ≤ n) × (n < m + nanos_per_day)
unfolding start_of_utc_day
start_of_utc_day-bounds n = (n - n % nanos_per_day, refl, omega arith, omega arith)

-- For a time after year 1, the cutoff is at least the retention before it, and less than a day more
-- than the retention.
pub partition_aligned_cutoff-bounds :
    (n r : ℕ)
    → (partition_aligned_cutoff (pos n) (pos r) +ℤ pos (r * nanos_per_day) ≤ℤ pos n)
      × (pos (n + 1)
          ≤ℤ partition_aligned_cutoff (pos n) (pos r) +ℤ pos (r * nanos_per_day + nanos_per_day))
unfolding partition_aligned_cutoff
partition_aligned_cutoff-bounds n r =
    let (m, e, le, lt) = start_of_utc_day-bounds n in
    let c = pos m -ℤ pos (r * nanos_per_day) in
    rw e (
      omega
          (arith, -ℤ_parts (pos m) (pos (r * nanos_per_day)), +ℤ_parts c (pos (r * nanos_per_day))),
      omega (
        arith,
        -ℤ_parts (pos m) (pos (r * nanos_per_day)),
        +ℤ_parts c (pos (r * nanos_per_day + nanos_per_day)),
      ),
    )
