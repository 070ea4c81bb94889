-- ===== src/Event/Durations.antt =====
-- internal/event/duration.go: the parser of ISO-8601 durations, and `UnmarshalJSON`.
pub mod Grammar
pub mod Loop
pub mod Accepts
pub mod RoundTrip
use trino_log_sink.Base.{
  Bool, Bytes, Option, [], bytes_eq, codes, false, if◌then◌else◌, leb, length, none, pos, some, suc,
  true, wrap_int64, zero, ℕ, ℤ, ◌&&◌, ◌+ℤ◌, ◌-ℤ◌, ◌==◌, ◌||◌, ◌∷◌,
}
use trino_log_sink.Event.{Duration}

-- The floating-point arithmetic of the parser: `strconv.ParseFloat(s, 64)`, with none for its error, and
-- `time.Duration(num * float64(scale))`.
pub record Floats (F : Type 0) : Type 0 where
  pub parse_float : Bytes → Option F
  pub scaled : F → ℤ → Duration

-- The errors of `parseISO8601Duration`.
pub data DurationError : Type 0 where
  invalid_duration invalid_number : DurationError
  outside_time unknown_unit : ℕ → DurationError

pub data Parsed : Type 0 where
  ok : Duration → Parsed
  failed : DurationError → Parsed

abbrev pub second : ℕ
second = 1_000_000_000

abbrev pub minute : ℕ
minute = 60_000_000_000

abbrev pub hour : ℕ
hour = 3_600_000_000_000

abbrev pub day : ℕ
day = 86_400_000_000_000

-- What a unit multiplies by, inside or outside the time part.
pub data Scale : Type 0 where
  scale : ℕ → Scale
  no_scale : DurationError → Scale

abbrev in_time_only : Bool → ℕ → ℕ → Scale
in_time_only in_time unit n = if in_time then scale n else no_scale (outside_time unit)

unfoldable pub scale_of : Bool → ℕ → Scale
scale_of in_time unit =
    if unit == b'D'
    then scale day
    else if unit == b'H'
    then in_time_only in_time unit hour
    else if unit == b'M'
    then in_time_only in_time unit minute
    else if unit == b'S'
    then in_time_only in_time unit second
    else no_scale (unknown_unit unit)

unfoldable pub is_number_byte : ℕ → Bool
is_number_byte c = c == b'.' || c == b'-' || (leb b'0' c && leb c b'9')

-- The number that a text starts with, and the text behind it.
unfoldable pub span_number : Bytes → Bytes × Bytes
unfolding is_number_byte
span_number [] = ([], [])
span_number (c ∷ s) =
    let (num, rest) = span_number s in if is_number_byte c then (c ∷ num, rest) else ([], c ∷ s)

-- `total = -total`, with the wrap-around of the smallest `int64`.
unfoldable pub negated : Bool → Option Parsed → Option Parsed
negated neg none = none
negated neg (some (failed e)) = some (failed e)
negated neg (some (ok d)) = some (ok (if neg then wrap_int64 (pos 0 -ℤ d) else d))

unfoldable pub parsed_or_zero : Option Parsed → Option Duration
parsed_or_zero none = none
parsed_or_zero (some (ok d)) = some d
parsed_or_zero (some (failed e)) = some (pos 0)

module _ {F : Type 0} (floats : Floats F) where
  -- The part of a round behind the number: `next` is the loop from the text behind the unit.
  unfoldable pub amount_step :
      (Duration → Bytes → Option Parsed) → Bool → Duration → Bytes → Bytes → Option Parsed
  unfolding scale_of
  amount_step next in_time total [] rest = some (failed invalid_duration)
  amount_step next in_time total (c ∷ num) [] = some (failed invalid_duration)
  amount_step next in_time total (c ∷ num) (unit ∷ rest) = elim (floats.parse_float (c ∷ num)) [
    | none ↦ some (failed invalid_number)
    | some f ↦ elim (scale_of in_time unit) [
      | no_scale e ↦ some (failed e)
      | scale n ↦ next (wrap_int64 (total +ℤ floats.scaled f (pos n))) rest
    ]
  ]

  -- The loop over the text behind P; none when the fuel is used up.
  unfoldable pub duration_loop : ℕ → Bool → Duration → Bytes → Option Parsed
  unfolding amount_step span_number
  duration_loop zero in_time total s = none
  duration_loop (suc fuel) in_time total [] = some (ok total)
  duration_loop (suc fuel) in_time total (c ∷ s) =
      if c == b'T'
      then duration_loop fuel true total s
      else amount_step (duration_loop fuel in_time) in_time total (span_number (c ∷ s)).0
          (span_number (c ∷ s)).1

  -- The parser behind the sign.
  unfoldable pub parse_unsigned : Bool → Bytes → Option Parsed
  unfolding duration_loop negated
  parse_unsigned neg [] = some (failed invalid_duration)
  parse_unsigned neg (c ∷ s) =
      if c == b'P'
      then negated neg (duration_loop (suc (length s)) false (pos 0) s)
      else some (failed invalid_duration)

  unfoldable pub parse_duration : Bytes → Option Parsed
  unfolding parse_unsigned
  parse_duration [] = some (ok (pos 0))
  parse_duration (c ∷ s) =
      if c == b'-'
      then parse_unsigned true s
      else if c == b'+'
      then parse_unsigned false s
      else parse_unsigned false (c ∷ s)

  -- `UnmarshalJSON`, which sets the duration on every path and returns no error. `as_string` and `as_number` are
  -- `json.Unmarshal` into a string and into a float64.
  unfoldable pub unmarshal : (Bytes → Option Bytes) → (Bytes → Option F) → Bytes → Option Duration
  unfolding parse_duration parsed_or_zero bytes_eq
  unmarshal as_string as_number b =
      if bytes_eq b (codes "null") then some (pos 0) else elim (as_string b) [
        | some s ↦ parsed_or_zero (parse_duration s)
        | none ↦ elim (as_number b) [
          | some secs ↦ some (floats.scaled secs (pos second))
          | none ↦ some (pos 0)
        ]
      ]
