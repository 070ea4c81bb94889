-- ===== src/Store/Calendar/Civil.antt =====
-- The dates and clock times that `Time.Format` prints in UTC, for the layouts of internal/store.
use trino_log_sink.Base.{
  Bool, Bytes, [], codes, decimal, if◌then◌else◌, length, ltb, min, negsuc, pos, refl, replicate,
  suc, zero, ℕ, ℤ, ◌%◌, ◌*◌, ◌++◌, ◌+◌, ◌-ℤ◌, ◌-◌, ◌/◌, ◌∷◌, ◌≡◌,
}
use trino_log_sink.Event.{Time}
use trino_log_sink.Store.Calendar.{days_in, is_leap, nanos_per_day}

-- The days before the time, from January 1 of year 1, and the nanoseconds of its day.
unfoldable pub day_of : Time → ℤ
day_of (pos n) = pos (n / nanos_per_day)
day_of (negsuc n) = negsuc (n / nanos_per_day)

unfoldable pub nanos_of_day : Time → ℕ
nanos_of_day (pos n) = n % nanos_per_day
nanos_of_day (negsuc n) = nanos_per_day - 1 - n % nanos_per_day

-- The years before a day of a cycle of 400 years, and the day of its year.
unfoldable pub year_in_cycle : ℕ → ℕ × ℕ
year_in_cycle d =
    let c = min (d / 36_524) 3 in
    let d' = d - 36_524 * c in
    let q = d' / 1461 in
    let e = d' - 1461 * q in let y = min (e / 365) 3 in (100 * c + 4 * q + y, e - 365 * y)

-- The month and the day of the month, from 1, for a day of the year; at most the given months are left.
unfoldable pub month_from : ℕ → ℕ → Bool → ℕ → ℕ × ℕ
unfolding days_in
month_from zero month leap d = (month, suc d)
month_from (suc left) month leap d =
    let rest = month_from left (suc month) leap (d - days_in month leap) in
    if ltb d (days_in month leap) then (month, suc d) else rest

pub record Civil : Type 0 where
  pub year : ℤ
  pub month : ℕ
  pub day : ℕ

-- `cycles` of 400 years before the day are taken off the year again.
unfoldable pub civil_from : ℕ → ℕ → Civil
unfolding year_in_cycle month_from is_leap
civil_from cycles d =
    let (y, yday) = year_in_cycle (d % 146_097) in
    let year = 400 * (d / 146_097) + y + 1 in
    let (month, day) = month_from 11 1 (is_leap year) yday in
    record { year = pos year -ℤ pos (400 * cycles); month = month; day = day }

unfoldable pub civil : ℤ → Civil
unfolding civil_from
civil (pos d) = civil_from 0 d
civil (negsuc d) = let cycles = d / 146_097 + 1 in civil_from cycles (146_097 * cycles - 1 - d)

zeros : ℕ → Bytes
zeros n = replicate n b'0'

-- `%0wd` of a number that is not negative.
unfoldable pub padded : ℕ → ℕ → Bytes
unfolding zeros decimal
padded w n = zeros (w - length (decimal n)) ++ decimal n

-- The year of "2006": four digits, behind a sign when it is negative.
unfoldable pub year_text : ℤ → Bytes
unfolding padded
year_text (pos y) = padded 4 y
year_text (negsuc y) = b'-' ∷ padded 4 (suc y)

unfoldable pub compact_text : Civil → Bytes
unfolding year_text padded
compact_text c = year_text c.year ++ padded 2 c.month ++ padded 2 c.day

-- The layout "20060102".
unfoldable pub compact_date : Time → Bytes
unfolding compact_text civil day_of
compact_date t = compact_text (civil (day_of t))

-- The layout "2006-01-02 15:04:05" with the separator of the date and the time.
unfoldable pub clock_date : ℕ → Time → Bytes
unfolding year_text civil day_of nanos_of_day padded
clock_date sep t =
    let c = civil (day_of t) in
    let s = nanos_of_day t / 1_000_000_000 in
    year_text c.year
    ++ b'-' ∷ padded 2 c.month
    ++ b'-' ∷ padded 2 c.day
    ++ sep ∷ padded 2 (s / 3600)
    ++ b':' ∷ padded 2 (s / 60 % 60)
    ++ b':' ∷ padded 2 (s % 60)

-- The layouts "2006-01-02 15:04:05.000" and "2006-01-02 15:04:05.000000".
unfoldable pub millis_date : Time → Bytes
unfolding clock_date nanos_of_day padded
millis_date t = clock_date 32 t ++ b'.' ∷ padded 3 (nanos_of_day t % 1_000_000_000 / 1_000_000)

unfoldable pub micros_date : Time → Bytes
unfolding clock_date nanos_of_day padded
micros_date t = clock_date 32 t ++ b'.' ∷ padded 6 (nanos_of_day t % 1_000_000_000 / 1000)

-- `time.RFC3339` of a time in UTC.
unfoldable pub rfc3339 : Time → Bytes
unfolding clock_date
rfc3339 t = clock_date b'T' t ++ b'Z' ∷ []

compact_date_example : compact_date (pos (738_944 * nanos_per_day + 5)) ≡ codes "20240229"
unfolding compact_date ◌-ℤ◌
compact_date_example = refl

-- The last day of a year of 366 days at the end of a century that is a leap year.
last_day_example : compact_date (pos (730_484 * nanos_per_day)) ≡ codes "20001231"
unfolding compact_date ◌-ℤ◌
last_day_example = refl

before_year_1_example : compact_date (negsuc 0) ≡ codes "00001231"
unfolding compact_date ◌-ℤ◌
before_year_1_example = refl

micros_date_example :
    micros_date (pos (738_944 * nanos_per_day + 3_723_004_005_006))
    ≡ codes "2024-02-29 01:02:03.004005"
unfolding micros_date ◌-ℤ◌
micros_date_example = refl
