-- ===== src/Store/Query.antt =====
-- internal/store/query.go and the filter of store.go: from a filter to predicates, an order and a
-- limit, which both backends print.
pub mod Statement
pub mod Placeholders
use trino_log_sink.Base.{
  Bool, Bytes, List, Option, [], bytes_eq, codes, false, if◌then◌else◌, is_empty, leb_ℤ, ltb_ℤ,
  negsuc, none, pos, some, suc, true, zero, ℤ, ◌*◌, ◌++◌, ◌+ℤ◌, ◌-ℤ◌, ◌||◌, ◌∷◌,
}
use trino_log_sink.Event.{Time}
use trino_log_sink.Store.Row.{Arg, text, time}
use trino_log_sink.Store.Identifier.{quote_ident}
use trino_log_sink.Store.Calendar.{nanos_per_day, query_id_day}

pub record QueryFilter : Type 0 where
  pub since : Time
  pub until : Time
  pub user : Bytes
  pub catalog : Bytes
  pub state : Bytes
  pub sort : Bytes
  pub desc : Bool
  pub limit : ℤ
  pub offset : ℤ

pub record QuerySummary : Type 0 where
  pub query_id : Bytes
  pub create_time : Time
  pub execution_start_time : Option Time
  pub user_name : Bytes
  pub source : Bytes
  pub catalog : Bytes
  pub query_state : Bytes
  pub query_type : Bytes
  pub query_preview : Bytes
  pub wall_ms : ℤ
  pub cpu_ms : ℤ
  pub physical_input_bytes : ℤ
  pub peak_user_memory_bytes : ℤ
  pub output_rows : ℤ
  pub processed_input_rows : ℤ
  pub error_code : Bytes

pub record Predicate : Type 0 where
  pub column : Bytes
  pub op : Bytes
  pub value : Arg

abbrev pub default_list_limit : ℤ
default_list_limit = pos 100

abbrev pub max_list_limit : ℤ
max_list_limit = pos 5000

-- `Time.IsZero`.
unfoldable pub is_zero : Time → Bool
is_zero (pos zero) = true
is_zero (pos (suc n)) = false
is_zero (negsuc n) = false

-- `ps = append(ps, p)` unless the condition holds.
unless : Bool → Predicate → List Predicate → List Predicate
unless absent p ps = if absent then ps else p ∷ ps

unfoldable pub list_predicates : QueryFilter → List Predicate
unfolding unless is_zero is_empty
list_predicates f =
    unless (is_zero f.since)
      (record { column = codes "create_time"; op = codes ">="; value = time f.since })
      (unless (is_zero f.until)
        (record { column = codes "create_time"; op = codes "<"; value = time f.until })
        (unless (is_empty f.user)
          (record { column = codes "user_name"; op = codes "="; value = text f.user })
          (unless (is_empty f.catalog)
            (record { column = codes "catalog"; op = codes "="; value = text f.catalog })
            (unless (is_empty f.state)
              (record { column = codes "query_state"; op = codes "="; value = text f.state }) []))))

-- `day.AddDate(0, 0, -1)` and `day.AddDate(0, 0, 2)`, in UTC.
unfoldable pub query_id_window : Bytes → Option (Time × Time)
unfolding query_id_day
query_id_window id = elim (query_id_day id) [
  | none ↦ none
  | some day ↦ some (day -ℤ pos nanos_per_day, day +ℤ pos (2 * nanos_per_day))
]

unfoldable pub query_id_predicates : Bytes → Option (List Predicate)
unfolding query_id_window
query_id_predicates id = elim (query_id_window id) [
  | none ↦ none
  | some (from, to) ↦ some (
      record { column = codes "query_id"; op = codes "="; value = text id }
      ∷ record { column = codes "create_time"; op = codes ">="; value = time from }
      ∷ record { column = codes "create_time"; op = codes "<"; value = time to }
      ∷ [])
]

-- The map `sortColumns`.
unfoldable pub sort_columns : List (Bytes × Bytes)
sort_columns =
    (codes "start", codes "create_time")
    ∷ (codes "wall", codes "wall_ms")
    ∷ (codes "cpu", codes "cpu_ms")
    ∷ (codes "bytes", codes "physical_input_bytes")
    ∷ (codes "mem", codes "peak_user_memory_bytes")
    ∷ (codes "rows", codes "output_rows")
    ∷ []

column_of : Bytes → List (Bytes × Bytes) → Bytes
unfolding bytes_eq
column_of key [] = codes "create_time"
column_of key ((k, col) ∷ cols) = if bytes_eq k key then col else column_of key cols

unfoldable pub sort_column : QueryFilter → Bytes
unfolding column_of sort_columns
sort_column f = column_of f.sort sort_columns

unfoldable pub order_by : QueryFilter → Bytes
unfolding sort_column quote_ident bytes_eq
order_by f =
    let dir = if f.desc then codes "DESC" else codes "ASC" in
    let col = sort_column f in
    let clause = quote_ident col ++ codes " " ++ dir in
    if bytes_eq col (codes "query_id")
    then clause
    else clause ++ codes ", " ++ quote_ident (codes "query_id") ++ codes " " ++ dir

unfoldable pub page_limit : QueryFilter → ℤ
page_limit f =
    if leb_ℤ f.limit (pos 0) || ltb_ℤ max_list_limit f.limit then default_list_limit else f.limit
