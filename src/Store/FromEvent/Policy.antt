-- ===== src/Store/FromEvent/Policy.antt =====
-- What the preview and the plan policy promise.
use trino_log_sink.Base.{Bytes, arith, codes, fields, join, length, pos, ℕ, ◌<◌, ◌≤◌}
use trino_log_sink.Store.Truncate.{rune_safe_cut}
use trino_log_sink.Store.Truncate.Bounds.{length-take-le, rune_safe_cut-le}
use trino_log_sink.Store.FromEvent.{preview_text}

-- A preview is at most as long as the configured cap, if that is positive.
preview_text-le : (query : Bytes) (n : ℕ) → 0 < n → length (preview_text query (pos n)) ≤ n
unfolding preview_text
preview_text-le query n h =
    let preview = join (fields query) (codes " ") in
    ground (arith, rune_safe_cut-le preview n, length-take-le (rune_safe_cut preview n) preview)
