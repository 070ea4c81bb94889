-- ===== src/Store/Calendar/Ordered.antt =====
-- The order of days, of their dates and of the texts "20060102" of these dates, in the years 1 to 9999.
use native.Mathlib.Decide.{dec_lt}
use mathlib.Core.Path.{subst}
use trino_log_sink.Base.{Bool, arith, suc, zero, ℕ, ◌*◌, ◌+◌, ◌-◌, ◌<◌, ◌≡◌, ◌≤◌}
use trino_log_sink.Store.Calendar.{days_before_year, days_in, days_of_months, is_leap}
use trino_log_sink.Store.Calendar.Days.{IsDate, days_in_year, days_of_months_step, days_of_year}

days_before_year-suc :
    (y : ℕ) → 1 ≤ y → days_before_year (suc y) ≡ days_before_year y + days_in_year y
unfolding days_before_year is_leap
days_before_year-suc y h = ground arith

days_before_year_mono : (y z : ℕ) → y ≤ z → days_before_year y ≤ days_before_year z
unfolding days_before_year
days_before_year_mono y z h = omega arith

days_of_months_mono : (leap : Bool) (m k : ℕ) → days_of_months m leap ≤ days_of_months (k + m) leap
unfolding days_of_months
days_of_months_mono leap m zero = let e : 0 + m ≡ m = omega arith in rw e (omega arith)
days_of_months_mono leap m (suc k) =
    let e : suc k + m ≡ suc (k + m) = omega arith in
    rw e (let ih = days_of_months_mono leap m k in omega arith)

-- The last day of a month is not behind the start of the next.
month_end :
    (leap : Bool) (m k d : ℕ)
    → 1 ≤ m
    → m < k
    → d ≤ days_in m leap
    → days_of_months (m - 1) leap + d ≤ days_of_months (k - 1) leap
month_end leap m k d h l i =
    let s = days_of_months_step m leap h in
    let j = days_of_months_mono leap m (k - 1 - m) in
    let e : k - 1 - m + m ≡ k - 1 = omega arith in let j' = rw e at j in omega arith

IsDate-year_end : {n y m d : ℕ} → IsDate n y m d → n ≤ days_before_year y + days_in_year y
IsDate-year_end {y = y} {m} {d} t =
    let a = t.month_le in
    let b = t.number_is in
    let c = month_end (is_leap y) m 13 d t.month_ge (omega arith) t.day_le in
    let e = days_of_year y in omega arith

-- A later year, or a later month of the year, has later days.
IsDate-year_lt : {n y m d n' y' m' d' : ℕ} → IsDate n y m d → IsDate n' y' m' d' → y < y' → n < n'
IsDate-year_lt {y = y} {y' = y'} t t' h =
    let a = IsDate-year_end t in
    let b = t'.number_is in
    let c = days_before_year-suc y t.year_ge in
    let d = days_before_year_mono (suc y) y' h in let e = t'.day_ge in omega arith

IsDate-month_lt : {n y m d n' m' d' : ℕ} → IsDate n y m d → IsDate n' y m' d' → m < m' → n < n'
IsDate-month_lt {y = y} {m} {d} {m' = m'} t t' h =
    let a = t.number_is in
    let b = t'.number_is in
    let c = month_end (is_leap y) m m' d t.month_ge h t.day_le in let e = t'.day_ge in omega arith

-- Year, month and day as one number.
abbrev pub date_number : ℕ → ℕ → ℕ → ℕ
date_number y m d = 10_000 * y + 100 * m + d

pub days_in_le : (m : ℕ) (leap : Bool) → days_in m leap ≤ 31
unfolding days_in
days_in_le m leap = ground arith

month_number :
    {n y m d n' m' d' : ℕ}
    → IsDate n y m d
    → IsDate n' y m' d'
    → n < n'
    → date_number y m d < date_number y m' d'
month_number {y = y} {m} {d} {m' = m'} {d'} t t' h = elim (dec_lt m m') [
  | yes l ↦ let a = days_in_le m (is_leap y) in let b = t.day_le in let c = t'.day_ge in omega arith
  | no l ↦ elim (dec_lt m' m) [
    | yes k ↦ let c = IsDate-month_lt t' t k in absurd (omega arith)
    | no k ↦
        let e : m' ≡ m = omega arith in
        let a = t.number_is in let b = rw e at t'.number_is in rw e (omega arith)
  ]
]

pub IsDate-date_number :
    {n y m d n' y' m' d' : ℕ}
    → IsDate n y m d
    → IsDate n' y' m' d'
    → n < n'
    → date_number y m d < date_number y' m' d'
IsDate-date_number {n} {y} {m} {d} {n'} {y'} {m'} {d'} t t' h = elim (dec_lt y y') [
  | yes l ↦
      let a = days_in_le m (is_leap y) in let b = t.day_le in let c = t.month_le in omega arith
  | no l ↦ elim (dec_lt y' y) [
    | yes k ↦ let c = IsDate-year_lt t' t k in absurd (omega arith)
    | no k ↦
        let e : y' ≡ y = omega arith in
        rw e (month_number t (subst (λ x. IsDate n' x m' d') e t') h)
  ]
]

number_month :
    {n y m d n' m' d' : ℕ}
    → IsDate n y m d
    → IsDate n' y m' d'
    → date_number y m d < date_number y m' d'
    → n < n'
number_month {y = y} {m} {d} {m' = m'} {d'} t t' h = elim (dec_lt m m') [
  | yes l ↦ IsDate-month_lt t t' l
  | no l ↦ elim (dec_lt m' m) [
    | yes k ↦
        let a = days_in_le m' (is_leap y) in
        let b = t'.day_le in let c = t.day_ge in absurd (omega arith)
    | no k ↦
        let e : m' ≡ m = omega arith in
        let a = t.number_is in let b = rw e at t'.number_is in let h' = rw e at h in omega arith
  ]
]

-- The numbers of dates are ordered as their days.
pub date_number-IsDate :
    {n y m d n' y' m' d' : ℕ}
    → IsDate n y m d
    → IsDate n' y' m' d'
    → date_number y m d < date_number y' m' d'
    → n < n'
date_number-IsDate {n} {y} {m} {d} {n'} {y'} {m'} {d'} t t' h = elim (dec_lt y y') [
  | yes l ↦ IsDate-year_lt t t' l
  | no l ↦ elim (dec_lt y' y) [
    | yes k ↦
        let a = days_in_le m' (is_leap y') in
        let b = t'.day_le in let c = t'.month_le in absurd (omega arith)
    | no k ↦
        let e : y' ≡ y = omega arith in
        number_month t (subst (λ x. IsDate n' x m' d') e t') (rw e at h)
  ]
]
