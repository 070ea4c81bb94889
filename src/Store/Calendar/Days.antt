-- ===== src/Store/Calendar/Days.antt =====
-- The day of a date, and the date of a day that `civil` finds.
use native.Mathlib.Decide.{dec_lt}
use trino_log_sink.Base.{
  Bool, arith, if◌then◌else◌, le→not-ltb, lt→ltb, min, pos, refl, suc, zero, ℕ, ◌%◌, ◌*◌, ◌+◌, ◌-ℤ◌,
  ◌-◌, ◌/◌, ◌<◌, ◌≡◌, ◌≤◌, if_intro, true,
}
use trino_log_sink.Store.Calendar.{days_before_year, days_in, days_of_months, is_leap}
use trino_log_sink.Store.Calendar.Civil.{civil_from, month_from, year_in_cycle}

abbrev pub days_in_year : ℕ → ℕ
days_in_year year = if is_leap year then 366 else 365

-- The years of a cycle, from 0: the days before year y + 1 are 365 y + y / 4 - y / 100.
record IsYearDay (d y k : ℕ) : Type 0 where
  year_small : y < 400
  day_is : d + y / 100 ≡ 365 * y + y / 4 + k
  day_small : k < 366
  leap_day : k ≡ 365 → (suc y % 4 ≡ 0) × ((suc y % 100 ≡ 0) → suc y ≡ 400)

year_in_cycle_parts :
    (c q y k d : ℕ)
    → c ≤ 3
    → q ≤ 24
    → y ≤ 3
    → d ≡ 36_524 * c + 1461 * q + 365 * y + k
    → k ≤ 365
    → (k ≡ 365 → (y ≡ 3) × ((q ≡ 24) → c ≡ 3))
    → IsYearDay d (100 * c + 4 * q + y) k
year_in_cycle_parts c q y k d hc hq hy e hk l = record {
  year_small = omega arith;
  day_is = omega arith;
  day_small = omega arith;
  leap_day = λ p.
      let (y3, c3) = l p in
      (omega arith, λ r. let q24 : q ≡ 24 = omega arith in let e3 = c3 q24 in omega arith);
}

year_in_cycle-IsYearDay :
    (d : ℕ) → d < 146_097 → IsYearDay d (year_in_cycle d).0 (year_in_cycle d).1
unfolding year_in_cycle
year_in_cycle-IsYearDay d h =
    let c = min (d / 36_524) 3 in
    let d' = d - 36_524 * c in
    let q = d' / 1461 in
    let e = d' - 1461 * q in
    let y = min (e / 365) 3 in
    year_in_cycle_parts c q y (e - 365 * y) d (omega arith) (omega arith) (omega arith)
      (omega arith) (omega arith) (λ p. (omega arith, λ r. omega arith))

-- The numbers of a date, and that it is the n-th day from January 1 of year 0, from 1.
pub record IsDate (n y m d : ℕ) : Type 0 where
  pub year_ge : 1 ≤ y
  pub month_ge : 1 ≤ m
  pub month_le : m ≤ 12
  pub day_ge : 1 ≤ d
  pub day_le : d ≤ days_in m (is_leap y)
  pub number_is : n ≡ days_before_year y + days_of_months (m - 1) (is_leap y) + d

record IsMonthDay (leap : Bool) (n m d : ℕ) : Type 0 where
  month_ge : 1 ≤ m
  month_le : m ≤ 12
  day_ge : 1 ≤ d
  day_le : d ≤ days_in m leap
  number_is : n ≡ days_of_months (m - 1) leap + d

pub days_of_months_step :
    (m : ℕ) (leap : Bool)
    → 1 ≤ m
    → days_of_months m leap ≡ days_of_months (m - 1) leap + days_in m leap
unfolding days_of_months
days_of_months_step zero leap h = absurd (omega arith)
days_of_months_step (suc m) leap h = let e : suc m - 1 ≡ m = omega arith in rw e refl

-- The search for the month, from a month that the day is not before, ends within the year.
month_from-IsMonthDay :
    (left m : ℕ) (leap : Bool) (d : ℕ)
    → 1 ≤ m
    → m + left ≡ 12
    → d + days_of_months (m - 1) leap < days_of_months 12 leap
    → IsMonthDay leap
        (suc d + days_of_months (m - 1) leap)
        (month_from left m leap d).0
        (month_from left m leap d).1
unfolding month_from
month_from-IsMonthDay zero m leap d h e k = record {
  month_ge = h;
  month_le = omega arith;
  day_ge = omega arith;
  day_le =
      let i : m ≡ 12 = omega arith in
      let s = days_of_months_step 12 leap (omega arith) in let k' = rw i at k in rw i (omega arith);
  number_is = omega arith;
}
month_from-IsMonthDay (suc left) m leap d h e k = elim (dec_lt d (days_in m leap)) [
  | yes l ↦ rw (lt→ltb d (days_in m leap) l) (record {
    month_ge = h;
    month_le = omega arith;
    day_ge = omega arith;
    day_le = omega arith;
    number_is = omega arith;
  })
  | no l ↦
      let step = days_of_months_step m leap h in
      let i : suc m - 1 ≡ m = omega arith in
      let same : d - days_in m leap + days_of_months (suc m - 1) leap
          ≡ d + days_of_months (m - 1) leap =
        rw i (omega arith) in
      let found =
        month_from-IsMonthDay left (suc m) leap (d - days_in m leap) (omega arith) (omega arith)
          (omega arith) in
      rw (le→not-ltb d (days_in m leap) (omega arith)) (record {
        month_ge = found.month_ge;
        month_le = found.month_le;
        day_ge = found.day_ge;
        day_le = found.day_le;
        number_is = let n = found.number_is in omega arith;
      })
]

pub days_of_year : (year : ℕ) → days_of_months 12 (is_leap year) ≡ days_in_year year
unfolding days_of_months days_in
days_of_year year = ground arith

is_leap-true : (y : ℕ) → y % 4 ≡ 0 → (y % 100 ≡ 0 → y % 400 ≡ 0) → is_leap y ≡ true
unfolding is_leap
is_leap-true y h k = ground arith

days_in_year_ge : (y : ℕ) → 365 ≤ days_in_year y
days_in_year_ge y = if_intro (λ n. 365 ≤ n) (is_leap y) (omega arith) (omega arith)

year_of-IsYearDay :
    (d y k : ℕ)
    → IsYearDay (d % 146_097) y k
    → (k < days_in_year (400 * (d / 146_097) + y + 1))
      × (d + 366 ≡ days_before_year (400 * (d / 146_097) + y + 1) + k)
unfolding days_before_year
year_of-IsYearDay d y k h =
    let a = h.year_small in
    let b = h.day_is in
    let c = h.day_small in
    let l = h.leap_day in
    let year = 400 * (d / 146_097) + y + 1 in
    (
      elim (dec_lt k 365) [
        | yes i ↦ let j = days_in_year_ge year in omega arith
        | no i ↦
            let (four, hundred) = l (omega arith) in
            rw (is_leap-true year (omega arith) (λ p. let e = hundred (omega arith) in omega arith))
              c
      ],
      omega arith,
    )

IsMonthDay-IsDate :
    (n k year m d : ℕ)
    → 1 ≤ year
    → n ≡ days_before_year year + k
    → IsMonthDay (is_leap year) (suc k + days_of_months (1 - 1) (is_leap year)) m d
    → IsDate (suc n) year m d
unfolding days_of_months
IsMonthDay-IsDate n k year m d h e r = record {
  year_ge = h;
  month_ge = r.month_ge;
  month_le = r.month_le;
  day_ge = r.day_ge;
  day_le = r.day_le;
  number_is = let i = r.number_is in omega arith;
}

from_year : (n : ℕ) → pos n -ℤ pos (400 * 0) ≡ pos n
unfolding ◌-ℤ◌
from_year n = ground arith

-- The date of a day from January 1 of year 1 on.
pub civil_from-IsDate :
    (d : ℕ)
    → (y : ℕ) × ((civil_from 0 d).year ≡ pos y)
      × (y ≡ 400 * (d / 146_097) + (year_in_cycle (d % 146_097)).0 + 1)
      × IsDate (d + 367) y (civil_from 0 d).month (civil_from 0 d).day
unfolding civil_from days_of_months
civil_from-IsDate d =
    let (y, k) = year_in_cycle (d % 146_097) in
    let year = 400 * (d / 146_097) + y + 1 in
    let (small, number) =
      year_of-IsYearDay d y k (year_in_cycle-IsYearDay (d % 146_097) (omega arith)) in
    let e : d + 367 ≡ suc (d + 366) = omega arith in
    (
      year,
      from_year year,
      refl,
      rw e (
          IsMonthDay-IsDate (d + 366) k year _ _ (omega arith) number (
            month_from-IsMonthDay 11 1 (is_leap year) k (omega arith) refl
              (rw (days_of_year year) (omega arith)))),
    )
