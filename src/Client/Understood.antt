-- ===== src/Client/Understood.antt =====
-- internal/querycli/list.go and internal/server/api.go: what the server reads of the request that
-- `query list` sends. The parameters go through `url.Values.Encode` and `r.URL.Query`, which keep them.
use trino_log_sink.Server.Filter.{
  Values, api_filter, api_max_offset, build_query_filter, clamp_limit, hour, is_among, limit_of,
  offset_of, parse_offset, range_info, resolve_range, valid_sorts,
}
use trino_log_sink.Base.{
  Bytes, [], codes, if◌then◌else◌, itoa, min_ℤ, none, pos, some, trim_space, ◌*◌, ◌+ℤ◌, ◌-ℤ◌, ◌∷◌,
  ◌≡◌,
}
use trino_log_sink.Event.{Duration, Time}
use trino_log_sink.Store.Query.{QueryFilter}
use trino_log_sink.Client.Request.{ListFlags, given, list_limit, list_offset}
use trino_log_sink.Server.Links.{Pairs}
use trino_log_sink.Server.Filter.{
  Values, api_filter, api_max_offset, build_query_filter, clamp_limit, hour, is_among, limit_of,
  offset_of, parse_offset, range_info, resolve_range, valid_sorts,
}

-- The duration of a range of the flags: a day for one that the server does not know.
range_of : Bytes → Duration
range_of range = elim (range_info range) [ some (d, label) ↦ d | none ↦ pos (24 * hour) ]

-- The filter that the flags ask for.
unfoldable pub requested : ListFlags → Time → QueryFilter
unfolding range_of is_among
requested f now = record {
  since = now -ℤ range_of f.range;
  until = now;
  user = trim_space f.user;
  catalog = trim_space f.catalog;
  state = f.state;
  sort = if is_among f.sort valid_sorts then f.sort else codes "start";
  desc = f.desc;
  limit = list_limit f.limit +ℤ pos 1;
  offset = min_ℤ (list_offset f.offset) api_max_offset;
}

-- What the server finds in the parameters of a request.
record Sends (f : ListFlags) (q : Values) : Type 0 where
  range_sent : q (codes "range") ≡ f.range
  user_sent : q (codes "user") ≡ f.user
  catalog_sent : q (codes "catalog") ≡ f.catalog
  state_sent : q (codes "state") ≡ f.state
  sort_sent : q (codes "sort") ≡ f.sort
  dir_sent : q (codes "dir") ≡ (if f.desc then codes "desc" else codes "asc")
  limit_sent : q (codes "limit") ≡ itoa (list_limit f.limit)
  offset_sent : q (codes "offset") ≡ itoa (list_offset f.offset)

module _ (f : ListFlags) where
  tail : Pairs
  tail =
      (codes "sort", f.sort)
      ∷ (codes "dir", if f.desc then codes "desc" else codes "asc")
      ∷ (codes "limit", itoa (list_limit f.limit))
      ∷ (codes "offset", itoa (list_offset f.offset))
      ∷ []

  with_state : Pairs
  unfolding given
  with_state = given (codes "state") f.state tail

  with_catalog : Pairs
  unfolding given
  with_catalog = given (codes "catalog") f.catalog with_state
