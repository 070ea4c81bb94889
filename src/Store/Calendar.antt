-- ===== src/Store/Calendar.antt =====
-- internal/store/identifier.go, `queryIDDay`: the day that a query id starts with. `time.Parse` with
-- "20060102" reads four, two and two digits of the proleptic Gregorian calendar.
pub mod Civil
pub mod Padded
pub mod Days
pub mod Ordered
pub mod Written
pub mod ReadBack
use trino_log_sink.Base.{
  Bool, Bytes, Option, codes, digits, drop, if◌then◌else◌, leb, length, ltb, none, not, pos, refl,
  some, suc, take, zero, ℕ, ◌%◌, ◌&&◌, ◌*◌, ◌+◌, ◌-ℤ◌, ◌-◌, ◌/◌, ◌==◌, ◌||◌, ◌≡◌,
}
use trino_log_sink.Event.{Time}

abbrev pub nanos_per_day : ℕ
nanos_per_day = 86_400_000_000_000

unfoldable pub is_leap : ℕ → Bool
is_leap year = year % 4 == 0 && (not (year % 100 == 0) || year % 400 == 0)

unfoldable pub days_in : ℕ → Bool → ℕ
days_in month leap =
    if month == 2
    then (if leap then 29 else 28)
    else if month == 4 || month == 6 || month == 9 || month == 11
    then 30
    else 31

-- The days of the first months of a year.
unfoldable pub days_of_months : ℕ → Bool → ℕ
unfolding days_in
days_of_months zero leap = 0
days_of_months (suc month) leap = days_of_months month leap + days_in (suc month) leap

-- The days from January 1 of year 0 to that of the year.
unfoldable pub days_before_year : ℕ → ℕ
days_before_year year = 365 * year + (year + 3) / 4 - (year + 99) / 100 + (year + 399) / 400

-- The start of a day; year 0 has 366 days.
unfoldable pub date : ℕ → ℕ → ℕ → Time
unfolding days_before_year days_of_months is_leap
date year month day =
    pos (
      (days_before_year year + days_of_months (month - 1) (is_leap year) + day - 1) * nanos_per_day)
    -ℤ pos (366 * nanos_per_day)

unfoldable pub valid_date : Option ℕ → Option ℕ → Option ℕ → Option Time
unfolding date days_in is_leap
valid_date (some year) (some month) (some day) =
    if leb 1 month && leb month 12 && leb 1 day && leb day (days_in month (is_leap year))
    then some (date year month day)
    else none
valid_date (some year) (some month) none = none
valid_date (some year) none day = none
valid_date none month day = none

unfoldable pub query_id_day : Bytes → Option Time
unfolding valid_date digits
query_id_day id =
    if ltb (length id) 8
    then none
    else valid_date (digits (take 4 id)) (digits (take 2 (drop 4 id))) (digits (take 2 (drop 6 id)))

-- February 29 of 2024 is day 738944 from January 1 of year 1; 2023 has none.
leap_day : query_id_day (codes "20240229_1") ≡ some (pos (738_944 * nanos_per_day))
unfolding query_id_day ◌-ℤ◌
leap_day = refl

no_leap_day : query_id_day (codes "20230229_1") ≡ none
unfolding query_id_day
no_leap_day = refl
