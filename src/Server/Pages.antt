-- ===== src/Server/Pages.antt =====
-- internal/server/api.go and ui.go: `listAndTrim`, the list handlers, and what their pages show.
use native.Mathlib.Decide.{dec_le}
use trino_log_sink.Base.{
  Bool, List, Option, [], ap, arith, codes, drop, false, if◌then◌else◌, inl, inr, length,
  length-take, le→not-ltb, ltb, lt→ltb, min, none, pos, pos_+ℤ, pos_part, refl, some, suc, take,
  take_ge, true, zero, ℕ, ℤ, ◌&&◌, ◌*◌, ◌+ℤ◌, ◌+◌, ◌-◌, ◌∙◌, ◌∷◌, ◌≡◌, ◌≤◌, ◌⊎◌,
}
use trino_log_sink.Event.{Time}
use trino_log_sink.Store.Errors.{Error}
use trino_log_sink.Store.Query.{QueryFilter, QuerySummary, page_limit}
use trino_log_sink.Server.Filter.Bounds.{clamp_limit-bounds}
use trino_log_sink.Server.Filter.{
  Values, api_filter, clamp_limit, max_ui_pages, parse_offset, ui_filter, ui_limit, ui_page,
}

-- A store's answer to `ListQueries`: its rows and its error.
abbrev pub Listing : Type 0
Listing = List QuerySummary × Option Error

unfoldable pub trimmed : List QuerySummary → ℕ → List QuerySummary × Bool
trimmed rows page_size =
    if ltb page_size (length rows) then (take page_size rows, true) else (rows, false)

-- `listAndTrim`, on what the store answers.
unfoldable pub list_and_trim : Listing → ℕ → (List QuerySummary × Bool) ⊎ Error
unfolding trimmed
list_and_trim (rows, none) page_size = inl (trimmed rows page_size)
list_and_trim (rows, some x) page_size = inr x

pub record ListResponse : Type 0 where
  pub queries : List QuerySummary
  pub count : ℕ
  pub limit : ℤ
  pub offset : ℤ
  pub has_next : Bool

-- `handleAPIListQueries`; none is the response with status 500.
unfoldable pub api_list : (QueryFilter → Listing) → Values → Time → Option ListResponse
unfolding list_and_trim api_filter
api_list store q now =
    let limit = clamp_limit (q (codes "limit")) in
    elim (list_and_trim (store (api_filter q now)) (pos_part limit)) [
      | inr x ↦ none
      | inl (rows, has_next) ↦ some (record {
        queries = rows;
        count = length rows;
        limit = limit;
        offset = parse_offset (q (codes "offset"));
        has_next = has_next;
      })
    ]

-- The part of `listView` that `populateRows` fills, with its page.
pub record ListView : Type 0 where
  pub rows : List QuerySummary
  pub count : ℕ
  pub failed : Bool
  pub page : ℕ
  pub has_prev : Bool
  pub has_next : Bool

-- `buildListView` and `populateRows`.
unfoldable pub populate_rows : (QueryFilter → Listing) → Values → Time → ListView
unfolding list_and_trim ui_filter
populate_rows store q now = elim (list_and_trim (store (ui_filter q now)) ui_limit) [
  | inr x ↦ record {
    rows = [];
    count = 0;
    failed = true;
    page = ui_page q;
    has_prev = false;
    has_next = false;
  }
  | inl (rows, has_next) ↦ record {
    rows = rows;
    count = length rows;
    failed = false;
    page = ui_page q;
    has_prev = ltb 1 (ui_page q);
    has_next = has_next && ltb (ui_page q) max_ui_pages;
  }
]

-- A store that answers a filter from all the rows that match it, in their order, with the limit and the
-- offset that its statement has.
abbrev pub Answers : (QueryFilter → Listing) → QueryFilter → List QuerySummary → Type 0
Answers store f all =
    store f ≡ (take (pos_part (page_limit f)) (drop (pos_part f.offset) all), none)

take-take : {A : Type 0} (n m : ℕ) (xs : List A) → n ≤ m → take n (take m xs) ≡ take n xs
take-take zero m xs h = refl
take-take (suc n) zero xs h = absurd (omega arith)
take-take (suc n) (suc m) [] h = refl
take-take (suc n) (suc m) (x ∷ xs) h = ap (λ ys. x ∷ ys) (take-take n m xs (omega arith))

-- One row more than a page is asked for tells whether a page follows.
trimmed-take :
    (n : ℕ) (xs : List QuerySummary) → trimmed (take (n + 1) xs) n ≡ (take n xs, ltb n (length xs))
unfolding trimmed
trimmed-take n xs = elim (dec_le (length xs) n) [
  | yes h ↦ rw (take_ge (n + 1) xs (omega arith), take_ge n xs h, le→not-ltb n (length xs) h)
  | no h ↦ rw (
    length-take (n + 1) xs,
    lt→ltb n (min (n + 1) (length xs)) (omega arith),
    lt→ltb n (length xs) (omega arith),
    take-take n (n + 1) xs (omega arith),
  )
]

page_limit-pos :
    (f : QueryFilter) (n : ℕ) → f.limit ≡ pos n → 1 ≤ n → n ≤ 5000 → page_limit f ≡ pos n
unfolding page_limit
page_limit-pos f n e h k = rw e (ground arith)

-- The response to a listing over a store that answers with the rows that match: the rows from the
-- requested offset on, as many as the limit, and whether a row follows them.
pub api_list-page :
    (store : QueryFilter → Listing) (q : Values) (now : Time) (all : List QuerySummary)
    → Answers store (api_filter q now) all
    → let limit = pos_part (clamp_limit (q (codes "limit"))) in
      let rest = drop (pos_part (parse_offset (q (codes "offset")))) all in
      api_list store q now
      ≡ some (record {
        queries = take limit rest;
        count = length (take limit rest);
        limit = clamp_limit (q (codes "limit"));
        offset = parse_offset (q (codes "offset"));
        has_next = ltb limit (length rest);
      })
unfolding api_list list_and_trim api_filter
api_list-page store q now all h =
    let (n, e, lo, hi) = clamp_limit-bounds (q (codes "limit")) in
    let f = api_filter q now in
    let same : page_limit f ≡ pos (n + 1) =
      page_limit-pos f (n + 1) (ap (λ x. x +ℤ pos 1) e ∙ pos_+ℤ n 1) (omega arith) (omega arith) in
    let rest = drop (pos_part f.offset) all in
    let done : (store f).1 ≡ none = ap (λ a. a.1) h in
    let rows : (store f).0 ≡ take (n + 1) rest =
      ap (λ a. a.0) h ∙ ap (λ l. take (pos_part l) rest) same in
    rw (done, api_list, rows, e, trimmed-take n rest)

-- What the dashboard shows of page p over a store that answers with the rows that match: rows
-- 100 * (p - 1) to 100 * p, a link back behind the first page, and a link on if a row follows and the
-- page is not the last of the 50 that are offered.
pub populate_rows-page :
    (store : QueryFilter → Listing) (q : Values) (now : Time) (all : List QuerySummary)
    → Answers store (ui_filter q now) all
    → let rest = drop ((ui_page q - 1) * ui_limit) all in
      populate_rows store q now ≡ record {
        rows = take ui_limit rest;
        count = length (take ui_limit rest);
        failed = false;
        page = ui_page q;
        has_prev = ltb 1 (ui_page q);
        has_next = ltb ui_limit (length rest) && ltb (ui_page q) max_ui_pages;
      }
unfolding populate_rows list_and_trim ui_filter page_limit
populate_rows-page store q now all h =
    let f = ui_filter q now in
    let rest = drop ((ui_page q - 1) * ui_limit) all in
    let done : (store f).1 ≡ none = ap (λ a. a.1) h in
    let rows : (store f).0 ≡ take (ui_limit + 1) rest = ap (λ a. a.0) h in
    rw (done, populate_rows, rows, trimmed-take ui_limit rest)
