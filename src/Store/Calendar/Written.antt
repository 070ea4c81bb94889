-- ===== src/Store/Calendar/Written.antt =====
-- The layout "20060102" of the days from January 1 of year 1 to December 31 of year 9999: its order, and
-- what `queryIDDay` reads of it.
use native.Mathlib.Decide.{dec_lt}
use trino_log_sink.Store.Calendar.Padded.{bytes_lt-number, number, padded_four, padded_two}
use trino_log_sink.Base.{
  All, Bool, Bytes, IsDigit, [], ap, arith, bytes_lt, le→not-ltb, ltb, lt→ltb, pos, refl, sym, ℕ,
  ◌%◌, ◌*◌, ◌++◌, ◌+◌, ◌-◌, ◌/◌, ◌<◌, ◌∙◌, ◌∷◌, ◌≡◌, ◌≤◌,
}
use trino_log_sink.Store.Calendar.{days_before_year, is_leap, nanos_per_day}
use trino_log_sink.Store.Calendar.Civil.{
  Civil, civil, civil_from, compact_date, compact_text, padded, year_text,
}
use trino_log_sink.Store.Calendar.Days.{IsDate, civil_from-IsDate}
use trino_log_sink.Store.Calendar.Ordered.{
  IsDate-date_number, date_number, date_number-IsDate, days_in_le,
}

-- The eight digits of a date.
abbrev pub four_digits : ℕ → Bytes
four_digits n =
    (b'0' + n / 1000) ∷ (b'0' + n / 100 % 10) ∷ (b'0' + n / 10 % 10) ∷ (b'0' + n % 10) ∷ []

abbrev pub two_digits : ℕ → Bytes
two_digits n = (b'0' + n / 10) ∷ (b'0' + n % 10) ∷ []

abbrev pub date_text : ℕ → ℕ → ℕ → Bytes
date_text y m d = four_digits y ++ (two_digits m ++ two_digits d)

-- The days up to December 31 of year 9999.
abbrev pub last_day : ℕ
last_day = 3_652_059

-- What is written of a day.
pub record IsWritten (n : ℕ) (s : Bytes) : Type 0 where
  pub y : ℕ
  pub m : ℕ
  pub d : ℕ
  pub is_date : IsDate (n + 367) y m d
  pub year_le : y ≤ 9999
  pub text_is : s ≡ date_text y m d

year_9999 : {n y m d : ℕ} → n < last_day → IsDate (n + 367) y m d → y ≤ 9999
unfolding days_before_year
year_9999 {n} {y} {m} {d} h t = let a = t.number_is in let b = t.day_ge in omega arith

pub day_two_digits : {n y m d : ℕ} → IsDate n y m d → (m < 100) × (d < 100)
day_two_digits {y = y} {m} {d} t =
    let a = days_in_le m (is_leap y) in
    let b = t.day_le in let c = t.month_le in (omega arith, omega arith)

compact_date_lem : (a : ℕ) → compact_date (pos a) ≡ compact_text (civil (pos (a / nanos_per_day)))
unfolding compact_date
compact_date_lem a = refl

civil_pos : (n : ℕ) → civil (pos n) ≡ civil_from 0 n
unfolding civil
civil_pos n = refl

year_text_pos : (y : ℕ) → year_text (pos y) ≡ padded 4 y
unfolding year_text
year_text_pos y = refl

compact_text-date_text :
    (c : Civil) (y : ℕ)
    → c.year ≡ pos y
    → y ≤ 9999
    → c.month < 100
    → c.day < 100
    → compact_text c ≡ date_text y c.month c.day
unfolding compact_text
compact_text-date_text c y e hy hm hd =
    rw (e, year_text_pos y, padded_four y (omega arith), padded_two c.month hm, padded_two c.day hd)
      refl

pub compact_date-IsWritten :
    (a : ℕ) → a / nanos_per_day < last_day → IsWritten (a / nanos_per_day) (compact_date (pos a))
compact_date-IsWritten a h =
    let n = a / nanos_per_day in
    let (y, e, _, t) = civil_from-IsDate n in
    let (hm, hd) = day_two_digits t in
    let hy = year_9999 h t in
    record {
      y = y;
      m = (civil_from 0 n).month;
      d = (civil_from 0 n).day;
      is_date = t;
      year_le = hy;
      text_is =
          compact_date_lem a
          ∙ (ap compact_text (civil_pos n) ∙ compact_text-date_text (civil_from 0 n) y e hy hm hd);
    }

date_text-IsDigit : (y m d : ℕ) → y ≤ 9999 → m < 100 → d < 100 → All IsDigit (date_text y m d)
date_text-IsDigit y m d hy hm hd = omega arith

number_digit : (n k : ℕ) (s : Bytes) → number n ((b'0' + k) ∷ s) ≡ number (10 * n + k) s
unfolding number
number_digit n k s = let e : b'0' + k - b'0' ≡ k = omega arith in rw e refl

pub number_end : (n : ℕ) → number n [] ≡ n
unfolding number
number_end n = refl

pub number-two_digits :
    (n k : ℕ) (s : Bytes) → k < 100 → number n (two_digits k ++ s) ≡ number (100 * n + k) s
number-two_digits n k s h =
    number_digit n (k / 10) _ ∙ number_digit _ (k % 10) s ∙ ap (λ x. number x s) (omega arith)

pub number-four_digits :
    (n k : ℕ) (s : Bytes) → k < 10_000 → number n (four_digits k ++ s) ≡ number (10_000 * n + k) s
number-four_digits n k s h =
    number_digit n (k / 1000) _
    ∙ number_digit _ (k / 100 % 10) _
    ∙ number_digit _ (k / 10 % 10) _
    ∙ number_digit _ (k % 10) s
    ∙ ap (λ x. number x s) (omega arith)

number-date_text :
    (y m d : ℕ) → y ≤ 9999 → m < 100 → d < 100 → number 0 (date_text y m d) ≡ date_number y m d
number-date_text y m d hy hm hd =
    number-four_digits 0 y _ (omega arith)
    ∙ number-two_digits _ m _ hm
    ∙ number-two_digits _ d [] hd
    ∙ number_end _
    ∙ omega arith

module _ {n n' : ℕ} {s s' : Bytes} (t : IsWritten n s) (t' : IsWritten n' s') where
  abbrev earlier : Bool
  earlier = ltb (date_number t.y t.m t.d) (date_number t'.y t'.m t'.d)

  bytes_lt-earlier : bytes_lt s s' ≡ earlier
  bytes_lt-earlier =
      let (hm, hd) = day_two_digits t.is_date in
      let (hm', hd') = day_two_digits t'.is_date in
      rw (t.text_is, t'.text_is)
        (bytes_lt-number 0 (date_text t.y t.m t.d) (date_text t'.y t'.m t'.d)
            (date_text-IsDigit t.y t.m t.d t.year_le hm hd)
            (date_text-IsDigit t'.y t'.m t'.d t'.year_le hm' hd') refl
          ∙ rw
              (
                number-date_text t.y t.m t.d t.year_le hm hd,
                number-date_text t'.y t'.m t'.d t'.year_le hm' hd',
              )
              refl)

  -- The texts are ordered as the days.
  bytes_lt-day : bytes_lt s s' ≡ ltb n n'
  bytes_lt-day =
      let k = date_number-IsDate t.is_date t'.is_date in
      elim (dec_lt n n') [
        | yes l ↦
            bytes_lt-earlier
            ∙ lt→ltb _ _ (IsDate-date_number t.is_date t'.is_date (omega arith))
            ∙ sym (lt→ltb n n' l)
        | no l ↦
            bytes_lt-earlier
            ∙ (le→not-ltb _ _ (ground (arith, k)) ∙ sym (le→not-ltb n n' (omega arith)))
      ]

-- The ids of partitions are ordered as their days, for the times of the years 1 to 9999.
pub partition_id-ordered :
    (a b : ℕ)
    → a / nanos_per_day < last_day
    → b / nanos_per_day < last_day
    → bytes_lt (compact_date (pos a)) (compact_date (pos b))
      ≡ ltb (a / nanos_per_day) (b / nanos_per_day)
partition_id-ordered a b h k =
    bytes_lt-day (compact_date-IsWritten a h) (compact_date-IsWritten b k)
