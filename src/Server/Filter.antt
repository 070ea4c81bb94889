-- ===== src/Server/Filter.antt =====
-- internal/server/api.go and ui.go: from the parameters of a request to a filter. `url.Values.Get` is
-- a function on names, empty for what is missing; `time.Now` is an argument.
pub mod Bounds
use trino_log_sink.Base.{
  Bool, Bytes, List, Option, [], atoi, bytes_eq, codes, false, if◌then◌else◌, ltb_ℤ, min, min_ℤ,
  none, not, pos, pos_part, some, trim_space, ℕ, ℤ, ◌*◌, ◌+ℤ◌, ◌+◌, ◌-ℤ◌, ◌-◌, ◌||◌, ◌∷◌,
}
use trino_log_sink.Event.{Duration, Time}
use trino_log_sink.Store.Query.{QueryFilter}

abbrev pub Values : Type 0
Values = Bytes → Bytes

abbrev pub api_default_limit : ℤ
api_default_limit = pos 100

abbrev pub api_max_limit : ℤ
api_max_limit = pos 500

abbrev pub api_max_offset : ℤ
api_max_offset = pos 100_000

abbrev pub ui_limit : ℕ
ui_limit = 100

abbrev pub max_ui_pages : ℕ
max_ui_pages = 50

unfoldable pub limit_of : Option ℤ → ℤ
limit_of none = api_default_limit
limit_of (some n) =
    if ltb_ℤ n (pos 1)
    then api_default_limit
    else if ltb_ℤ api_max_limit n
    then api_max_limit
    else n

unfoldable pub clamp_limit : Bytes → ℤ
unfolding limit_of atoi
clamp_limit v = limit_of (atoi v)

unfoldable pub offset_of : Option ℤ → ℤ
offset_of none = pos 0
offset_of (some n) = if ltb_ℤ n (pos 0) then pos 0 else min_ℤ n api_max_offset

unfoldable pub parse_offset : Bytes → ℤ
unfolding offset_of atoi
parse_offset v = offset_of (atoi v)

abbrev pub hour : ℕ
hour = 3_600_000_000_000

-- The map `rangeDurations`, with the labels of `ranges`.
unfoldable pub ranges : List (Bytes × Duration × Bytes)
ranges =
    (codes "1h", pos hour, codes "Last hour")
    ∷ (codes "6h", pos (6 * hour), codes "Last 6 hours")
    ∷ (codes "24h", pos (24 * hour), codes "Last 24 hours")
    ∷ (codes "7d", pos (7 * 24 * hour), codes "Last 7 days")
    ∷ (codes "30d", pos (30 * 24 * hour), codes "Last 30 days")
    ∷ []

find_range : Bytes → List (Bytes × Duration × Bytes) → Option (Duration × Bytes)
unfolding bytes_eq
find_range v [] = none
find_range v ((k, d, label) ∷ rs) = if bytes_eq k v then some (d, label) else find_range v rs

unfoldable pub range_info : Bytes → Option (Duration × Bytes)
unfolding find_range ranges
range_info v = find_range v ranges

-- The range, its duration and its label; `24h` for a range that is not known.
unfoldable pub resolve_range : Values → Bytes × Duration × Bytes
unfolding range_info
resolve_range q = elim (range_info (q (codes "range"))) [
  | some (d, label) ↦ (q (codes "range"), d, label)
  | none ↦ (codes "24h", pos (24 * hour), codes "Last 24 hours")
]

unfoldable pub valid_sorts : List Bytes
valid_sorts =
    codes "start" ∷ codes "wall" ∷ codes "cpu" ∷ codes "bytes" ∷ codes "mem" ∷ codes "rows" ∷ []

unfoldable pub is_among : Bytes → List Bytes → Bool
unfolding bytes_eq
is_among v [] = false
is_among v (k ∷ ks) = bytes_eq k v || is_among v ks

unfoldable pub build_query_filter : Values → Time → QueryFilter
unfolding resolve_range is_among valid_sorts trim_space bytes_eq
build_query_filter q now =
    let (rng, d, label) = resolve_range q in
    record {
      since = now -ℤ d;
      until = now;
      user = trim_space (q (codes "user"));
      catalog = trim_space (q (codes "catalog"));
      state = q (codes "state");
      sort = if is_among (q (codes "sort")) valid_sorts then q (codes "sort") else codes "start";
      desc = not (bytes_eq (q (codes "dir")) (codes "asc"));
      limit = pos 0;
      offset = pos 0;
    }

unfoldable pub page_number : Option ℤ → ℕ
page_number none = 1
page_number (some n) = if ltb_ℤ (pos 1) n then min (pos_part n) max_ui_pages else 1

-- `page` of `buildListView`, from 1 to 50.
unfoldable pub ui_page : Values → ℕ
unfolding page_number atoi
ui_page q = page_number (atoi (q (codes "page")))

unfoldable pub ui_filter : Values → Time → QueryFilter
unfolding build_query_filter ui_page
ui_filter q now = record (build_query_filter q now) {
  limit = pos (ui_limit + 1);
  offset = pos ((ui_page q - 1) * ui_limit);
}

unfoldable pub api_filter : Values → Time → QueryFilter
unfolding build_query_filter clamp_limit parse_offset
api_filter q now = record (build_query_filter q now) {
  limit = clamp_limit (q (codes "limit")) +ℤ pos 1;
  offset = parse_offset (q (codes "offset"));
}
