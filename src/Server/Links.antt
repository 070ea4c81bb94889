-- ===== src/Server/Links.antt =====
-- internal/server/ui.go: the links of the dashboard. `escape` is `url.QueryEscape` and `html` is
-- `template.HTMLEscapeString`.
pub mod Kept
use trino_log_sink.Base.{
  Bool, Bytes, List, [], bytes_eq, bytes_lt, codes, decimal, if◌then◌else◌, is_empty, join, ltb,
  map, ℕ, ◌&&◌, ◌++◌, ◌∷◌,
}
use trino_log_sink.Event.{Time}
use trino_log_sink.Store.Query.{QueryFilter}
use trino_log_sink.Server.Filter.{Values, build_query_filter, resolve_range, ui_page}

-- The part of `listView` that `buildListView` fills.
pub record Choices : Type 0 where
  pub range : Bytes
  pub range_label : Bytes
  pub user : Bytes
  pub catalog : Bytes
  pub state : Bytes
  pub sort : Bytes
  pub dir : Bytes
  pub failed_only : Bool
  pub page : ℕ

unfoldable pub build_list_view : Values → Time → Choices
unfolding resolve_range build_query_filter ui_page bytes_eq
build_list_view q now =
    let (rng, d, label) = resolve_range q in
    let f = build_query_filter q now in
    record {
      range = rng;
      range_label = label;
      user = f.user;
      catalog = f.catalog;
      state = f.state;
      sort = f.sort;
      dir = if f.desc then codes "desc" else codes "asc";
      failed_only = bytes_eq f.state (codes "FAILED");
      page = ui_page q;
    }

-- `url.Values`, each key once.
abbrev pub Pairs : Type 0
Pairs = List (Bytes × Bytes)

unfoldable pub set_pair : Bytes → Bytes → Pairs → Pairs
unfolding bytes_eq
set_pair key v [] = (key, v) ∷ []
set_pair key v ((k, w) ∷ q) = if bytes_eq k key then (k, v) ∷ q else (k, w) ∷ set_pair key v q

unfoldable pub del_pair : Bytes → Pairs → Pairs
unfolding bytes_eq
del_pair key [] = []
del_pair key ((k, w) ∷ q) = if bytes_eq k key then q else (k, w) ∷ del_pair key q

unfoldable pub get_pair : Pairs → Bytes → Bytes
unfolding bytes_eq
get_pair [] key = []
get_pair ((k, v) ∷ q) key = if bytes_eq k key then v else get_pair q key

-- `q.Set(key, v)` unless the value is empty.
set_given : Bytes → Bytes → Pairs → Pairs
unfolding set_pair is_empty
set_given key v q = if is_empty v then q else set_pair key v q

unfoldable pub base_values : Choices → Pairs
unfolding set_given
base_values v = set_given (codes "state") v.state (
    set_given (codes "catalog") v.catalog
      (set_given (codes "user") v.user ((codes "range", v.range) ∷ [])))

set_sort : Bytes → Bytes → Pairs → Pairs
unfolding set_pair
set_sort sort dir q = set_pair (codes "dir") dir (set_pair (codes "sort") sort q)

unfoldable pub top_values : Choices → Bytes → Pairs
unfolding base_values set_sort
top_values v key = set_sort key (codes "desc") (base_values v)

unfoldable pub failed_values : Choices → Pairs
unfolding base_values set_sort set_pair del_pair
failed_values v =
    let q = base_values v in
    set_sort v.sort v.dir (
      if v.failed_only
      then del_pair (codes "state") q
      else set_pair (codes "state") (codes "FAILED") q)

unfoldable pub page_values : Choices → ℕ → Pairs
unfolding base_values set_sort set_pair decimal
page_values v page =
    let q = set_sort v.sort v.dir (base_values v) in
    if ltb 1 page then set_pair (codes "page") (decimal page) q else q

-- `Values.Encode`: by the order of the keys.
insert_pair : Bytes × Bytes → Pairs → Pairs
unfolding bytes_lt
insert_pair p [] = p ∷ []
insert_pair (k, v) ((l, w) ∷ q) =
    if bytes_lt k l then (k, v) ∷ (l, w) ∷ q else (l, w) ∷ insert_pair (k, v) q

sort_pairs : Pairs → Pairs
unfolding insert_pair
sort_pairs [] = []
sort_pairs (p ∷ q) = insert_pair p (sort_pairs q)

module _ (escape html : Bytes → Bytes) where
  unfoldable pub encode : Pairs → Bytes
  unfolding sort_pairs join
  encode q = join (map (λ p. escape p.0 ++ codes "=" ++ escape p.1) (sort_pairs q)) (codes "&")

  -- A link to the dashboard, and to its table alone.
  unfoldable pub href : Pairs → Bytes
  unfolding encode
  href q = codes "/?" ++ encode q

  unfoldable pub href_partial : Pairs → Bytes
  unfolding encode
  href_partial q = codes "/partials/queries?" ++ encode q

  -- The link of a column's head, which turns the direction of the column that is sorted by; the arrows are
  -- U+25BC and U+25B2.
  unfoldable pub sortlink : Choices → Bytes → Bytes → Bytes
  unfolding encode base_values set_sort bytes_eq
  sortlink v key label =
      let sorted = bytes_eq v.sort key in
      let down = bytes_eq v.dir (codes "desc") in
      let arrow =
        if sorted
        then (if down then 32 ∷ 0xe2 ∷ 0x96 ∷ 0xbc ∷ [] else 32 ∷ 0xe2 ∷ 0x96 ∷ 0xb2 ∷ [])
        else [] in
      let dir = if sorted && down then codes "asc" else codes "desc" in
      let enc = html (encode (set_sort key dir (base_values v))) in
      codes "<a href=\"/?"
      ++ enc
      ++ codes "\" hx-get=\"/partials/queries?"
      ++ enc
      ++ codes "\" hx-target=\"#results\">"
      ++ html label
      ++ arrow
      ++ codes "</a>"
