-- ===== src/Tests/Querying.antt =====
-- The theorems on filters, statements and pages.
use trino_log_sink.Base.{
  Bytes, List, [], bytes_eq, codes, drop, false, if◌then◌else◌, is_empty, length, ltb, none, pos,
  pos_part, refl, some, take, true, ◌&&◌, ◌*◌, ◌++◌, ◌-◌, ◌∷◌, ◌≡◌, ◌≤ℤ◌, ◌≤◌,
}
use trino_log_sink.Store.Identifier.{quote_ident}
use trino_log_sink.Store.Identifier.Quoting.{read_ident, read_ident-quote_ident}
use trino_log_sink.Store.Query.{
  QueryFilter, QuerySummary, list_predicates, max_list_limit, page_limit, sort_column,
}
use trino_log_sink.Store.Query.Statement.{SameShape, list_text, page_limit-bounds, trino_where}
use trino_log_sink.Store.Query.Placeholders.{list_text-SameShape}
use trino_log_sink.Server.Filter.{
  Values, clamp_limit, max_ui_pages, parse_offset, ui_limit, ui_page,
}
use trino_log_sink.Server.Filter.Bounds.{ui_page-bounds}
use trino_log_sink.Server.Pages.{
  Listing, api_list, api_list-page, populate_rows, populate_rows-page,
}
use trino_log_sink.Tests.Samples.{trino_store}

abbrev filter : Bytes → QueryFilter
filter user = record {
  since = pos 5;
  until = pos 9;
  user = user;
  catalog = [];
  state = [];
  sort = codes "wall";
  desc = true;
  limit = pos 101;
  offset = pos 0;
}

abbrev hostile : Bytes
hostile = codes "' OR 1=1 --"

hostile-SameShape : SameShape trino_store (filter (codes "alice")) (filter hostile)
unfolding is_empty sort_column
hostile-SameShape = record {
  since_same = refl;
  until_same = refl;
  user_same = refl;
  catalog_same = refl;
  state_same = refl;
  column_same = refl;
  desc_same = refl;
  limit_same = refl;
  offset_same = refl;
}

where_example :
    (trino_where (list_predicates (filter hostile))).0
    ≡ codes " WHERE \"create_time\" >= ? AND \"create_time\" < ? AND \"user_name\" = ?"
unfolding trino_where list_predicates
where_example = refl

list_text-SameShape_example :
    list_text trino_store (filter (codes "alice")) ≡ list_text trino_store (filter hostile)
list_text-SameShape_example =
    list_text-SameShape trino_store (filter (codes "alice")) (filter hostile) hostile-SameShape

page_limit-bounds_example :
    (pos 1 ≤ℤ page_limit (filter hostile)) × (page_limit (filter hostile) ≤ℤ max_list_limit)
page_limit-bounds_example = page_limit-bounds (filter hostile)

read_ident-quote_ident_example :
    read_ident (quote_ident (codes "a\"b") ++ codes ".x") ≡ some (codes "a\"b", codes ".x")
read_ident-quote_ident_example = read_ident-quote_ident (codes "a\"b") (codes ".x") refl

-- The parameters of a request: a limit of 1, and the second page.
abbrev values : Values
values name =
    if bytes_eq name (codes "limit")
    then codes "1"
    else if bytes_eq name (codes "page")
    then codes "2"
    else []

abbrev summary : Bytes → QuerySummary
summary id = record {
  query_id = id;
  create_time = pos 5;
  execution_start_time = none;
  user_name = [];
  source = [];
  catalog = [];
  query_state = [];
  query_type = [];
  query_preview = [];
  wall_ms = pos 0;
  cpu_ms = pos 0;
  physical_input_bytes = pos 0;
  peak_user_memory_bytes = pos 0;
  output_rows = pos 0;
  processed_input_rows = pos 0;
  error_code = [];
}

abbrev two_queries : List QuerySummary
two_queries = summary (codes "a") ∷ summary (codes "b") ∷ []

abbrev honest : QueryFilter → Listing
honest f = (take (pos_part (page_limit f)) (drop (pos_part f.offset) two_queries), none)

ui_page-bounds_example : (1 ≤ ui_page values) × (ui_page values ≤ max_ui_pages)
ui_page-bounds_example = ui_page-bounds values

api_list-page_example :
    let limit = pos_part (clamp_limit (values (codes "limit"))) in
    let rest = drop (pos_part (parse_offset (values (codes "offset")))) two_queries in
    api_list honest values (pos 9)
    ≡ some (record {
      queries = take limit rest;
      count = length (take limit rest);
      limit = clamp_limit (values (codes "limit"));
      offset = parse_offset (values (codes "offset"));
      has_next = ltb limit (length rest);
    })
api_list-page_example = api_list-page honest values (pos 9) two_queries refl

populate_rows-page_example :
    let rest = drop ((ui_page values - 1) * ui_limit) two_queries in
    populate_rows honest values (pos 9) ≡ record {
      rows = take ui_limit rest;
      count = length (take ui_limit rest);
      failed = false;
      page = ui_page values;
      has_prev = ltb 1 (ui_page values);
      has_next = ltb ui_limit (length rest) && ltb (ui_page values) max_ui_pages;
    }
populate_rows-page_example = populate_rows-page honest values (pos 9) two_queries refl
