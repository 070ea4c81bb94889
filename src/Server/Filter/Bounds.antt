-- ===== src/Server/Filter/Bounds.antt =====
-- The limits, offsets and pages that a request can ask for.
use trino_log_sink.Base.{
  Bytes, Option, arith, atoi, codes, if◌then◌else◌, max, min, negsuc, none, pos, refl, some, ℕ, ℤ,
  ◌==◌, ◌≡◌, ◌≤◌,
}
use trino_log_sink.Server.Filter.{Values, clamp_limit, limit_of, max_ui_pages, page_number, ui_page}

limit_of-bounds : (o : Option ℤ) → (n : ℕ) × (limit_of o ≡ pos n) × (1 ≤ n) × (n ≤ 500)
unfolding limit_of
limit_of-bounds none = (100, refl, omega arith, omega arith)
limit_of-bounds (some (pos n)) =
    (max 1 (if n == 0 then 100 else min n 500), ground arith, omega arith, ground arith)
limit_of-bounds (some (negsuc n)) = (100, ground arith, omega arith, omega arith)

-- A page of the API has between 1 and 500 rows, whatever the request says.
pub clamp_limit-bounds : (v : Bytes) → (n : ℕ) × (clamp_limit v ≡ pos n) × (1 ≤ n) × (n ≤ 500)
unfolding clamp_limit
clamp_limit-bounds v = limit_of-bounds (atoi v)

page_number-bounds : (o : Option ℤ) → (1 ≤ page_number o) × (page_number o ≤ max_ui_pages)
unfolding page_number
page_number-bounds none = (omega arith, omega arith)
page_number-bounds (some n) = ground arith

-- A page of the dashboard is one of 50.
pub ui_page-bounds : (q : Values) → (1 ≤ ui_page q) × (ui_page q ≤ max_ui_pages)
unfolding ui_page
ui_page-bounds q = page_number-bounds (atoi (q (codes "page")))
