-- ===== src/Store/Calendar/ReadBack.antt =====
-- internal/store/identifier.go, `queryIDDay`: what it reads of a date in the layout "20060102".
use trino_log_sink.Base.{
  All, Bytes, IsDigit, [], ap, arith, digits, digits_from, is_digit, length, le→leb, le→not-ltb,
  pos, refl, some, ℕ, ◌*◌, ◌++◌, ◌+◌, ◌-ℤ◌, ◌-◌, ◌/◌, ◌<◌, ◌∙◌, ◌∷◌, ◌≡◌,
}
use trino_log_sink.Store.Calendar.{
  date, days_before_year, days_in, days_of_months, is_leap, nanos_per_day, query_id_day, valid_date,
}
use trino_log_sink.Store.Calendar.Civil.{compact_date}
use trino_log_sink.Store.Calendar.Days.{IsDate}
use trino_log_sink.Store.Calendar.Padded.{number}
use trino_log_sink.Store.Calendar.Written.{
  compact_date-IsWritten, date_text, day_two_digits, four_digits, last_day, number-four_digits,
  number-two_digits, number_end, two_digits,
}

number-digits_from : (n : ℕ) (s : Bytes) → All IsDigit s → digits_from n s ≡ some (number n s)
unfolding digits_from number is_digit
number-digits_from n [] h = refl
number-digits_from n (c ∷ s) (h, hs) =
    rw (le→leb 48 c h.0, le→leb c 57 h.1) (number-digits_from (10 * n + (c - 48)) s hs)

digits_four : (y : ℕ) → y < 10_000 → digits (four_digits y) ≡ some y
unfolding digits
digits_four y h =
    number-digits_from 0 (four_digits y) (omega arith)
    ∙ ap some (number-four_digits 0 y [] h ∙ (number_end _ ∙ omega arith))

digits_two : (m : ℕ) → m < 100 → digits (two_digits m) ≡ some m
unfolding digits
digits_two m h =
    number-digits_from 0 (two_digits m) (omega arith)
    ∙ ap some (number-two_digits 0 m [] h ∙ (number_end _ ∙ omega arith))

days_from_year_1 :
    (n : ℕ) → pos ((n + 366) * nanos_per_day) -ℤ pos (366 * nanos_per_day) ≡ pos (n * nanos_per_day)
unfolding ◌-ℤ◌
days_from_year_1 n = ground arith

date-IsDate : (n : ℕ) {y m d : ℕ} → IsDate (n + 367) y m d → date y m d ≡ pos (n * nanos_per_day)
unfolding date
date-IsDate n {y} {m} {d} t =
    let a = t.number_is in
    let e : days_before_year y + days_of_months (m - 1) (is_leap y) + d - 1 ≡ n + 366 =
      omega arith in
    ap (λ x. pos (x * nanos_per_day) -ℤ pos (366 * nanos_per_day)) e ∙ days_from_year_1 n

valid_date-IsDate :
    (n : ℕ) {y m d : ℕ}
    → IsDate (n + 367) y m d
    → valid_date (some y) (some m) (some d) ≡ some (pos (n * nanos_per_day))
unfolding valid_date
valid_date-IsDate n {y} {m} {d} t =
    let a = le→leb 1 m t.month_ge in
    let b = le→leb m 12 t.month_le in
    let c = le→leb 1 d t.day_ge in
    let e = le→leb d (days_in m (is_leap y)) t.day_le in rw (a, b, c, e) (ap some (date-IsDate n t))

-- A query id that starts with the date of a time in the years 1 to 9999 is read as the start of the day of that
-- time.
pub query_id_day-compact_date :
    (a : ℕ) (rest : Bytes)
    → a / nanos_per_day < last_day
    → query_id_day (compact_date (pos a) ++ rest) ≡ some (pos (a / nanos_per_day * nanos_per_day))
unfolding query_id_day
query_id_day-compact_date a rest h =
    let t = compact_date-IsWritten a h in
    let (hm, hd) = day_two_digits t.is_date in
    let hy = t.year_le in
    let long = le→not-ltb (length (date_text t.y t.m t.d ++ rest)) 8 (omega arith) in
    rw (t.text_is, long, digits_four t.y (omega arith), digits_two t.m hm, digits_two t.d hd)
      (valid_date-IsDate (a / nanos_per_day) t.is_date)
