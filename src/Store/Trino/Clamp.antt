-- ===== src/Store/Trino/Clamp.antt =====
-- internal/store/trino.go, `estimateRowBytes` and `clampRow`: shrinking a row to a byte budget.
-- A pointer into the row that `stringFields` returns is its place in that list.
use trino_log_sink.Base.{
  Bytes, List, Option, [], if◌then◌else◌, is_empty, leb, length, ltb, max, none, pos, set, some,
  suc, zero, ℕ, ◌+◌, ◌-◌, ◌/◌, ◌∷◌,
}
use trino_log_sink.Store.Row.{Arg, Row, args}
use trino_log_sink.Store.Chunk.{estimate_arg_bytes}
use trino_log_sink.Store.Truncate.{string_fields, truncate}

abbrev pub clamp_max_iterations : ℕ
clamp_max_iterations = 1000

unfoldable pub sum_args : List Arg → ℕ
sum_args [] = 0
sum_args (a ∷ as') = estimate_arg_bytes a + sum_args as'

-- `placeholder` is `len(s.rowPlaceholder)`.
unfoldable pub estimate_row_bytes : ℕ → Row → ℕ
unfolding sum_args args estimate_arg_bytes
estimate_row_bytes placeholder r = placeholder + 2 + sum_args (args r)

unfoldable pub head_or_empty : List Bytes → Bytes
head_or_empty [] = []
head_or_empty (f ∷ fs) = f

unfoldable pub tail : List Bytes → List Bytes
tail [] = []
tail (f ∷ fs) = fs

-- The text in a place of a list.
text_at : ℕ → List Bytes → Bytes
text_at zero fs = head_or_empty fs
text_at (suc i) fs = text_at i (tail fs)

-- The row whose `stringFields` point to the texts.
unfoldable pub with_string_fields : Row → List Bytes → Row
unfolding text_at tail head_or_empty
with_string_fields r fs = record r {
  plan = text_at 0 fs;
  json_plan = text_at 1 fs;
  query_text = text_at 2 fs;
  error_message = text_at 3 fs;
  inputs_json = text_at 4 fs;
  query_id = text_at 5 fs;
  query_state = text_at 6 fs;
  query_type = text_at 7 fs;
  user_name = text_at 8 fs;
  source = text_at 9 fs;
  principal = text_at 10 fs;
  client_tags = text_at 11 fs;
  catalog = text_at 12 fs;
  schema_name = text_at 13 fs;
  query_preview = text_at 14 fs;
  update_type = text_at 15 fs;
  error_code = text_at 16 fs;
  error_type = text_at 17 fs;
  resource_group = text_at 18 fs;
  server_version = text_at 19 fs;
  environment = text_at 20 fs;
}

-- The loop that looks for `largest`, from place `i` on: its place and its text.
unfoldable pub largest_from : List Bytes → ℕ → ℕ → Bytes → ℕ × Bytes
largest_from [] i best found = (best, found)
largest_from (f ∷ fs) i best found =
    if ltb (length found) (length f)
    then largest_from fs (i + 1) i f
    else largest_from fs (i + 1) best found

-- `largest`, which is nil for no field only.
unfoldable pub largest : List Bytes → Option (ℕ × Bytes)
unfolding largest_from
largest [] = none
largest (f ∷ fs) = some (largest_from fs 1 0 f)

-- `max(len(*largest)-(est-budget), len(*largest)/2)`, where `est` is above `budget`.
unfoldable pub shrink_target : ℕ → ℕ → ℕ → ℕ
shrink_target len est budget = max (len - (est - budget)) (len / 2)

module _ (placeholder budget : ℕ) where
  unfoldable pub shrink : Row → ℕ → ℕ → Bytes → Row
  shrink r est i f =
      with_string_fields r
        (set (string_fields r) i (truncate f (pos (shrink_target (length f) est budget))))

  -- The loop of `clampRow`, by the iterations left.
  unfoldable pub clamp_loop : ℕ → Row → ℕ → Row
  clamp_loop zero r est = r
  clamp_loop (suc left) r est =
      let round : Row = elim (largest (string_fields r)) [
        | none ↦ r
        | some (i, f) ↦
            let r' = shrink r est i f in
            let next = estimate_row_bytes placeholder r' in
            let again = clamp_loop left r' next in
            if is_empty f then r else if leb est next then r' else again
      ] in
      if leb est budget then r else round

  unfoldable pub clamp_row : Row → Row
  clamp_row r = clamp_loop clamp_max_iterations r (estimate_row_bytes placeholder r)
