-- ===== src/Event/Durations/Grammar.antt =====
-- internal/event/duration.go: the durations that the parser accepts, described without its loop.
use mathlib.Core.Path.{subst}
use trino_log_sink.Base.{
  ==_iff, All, Bool, Bool-cases, Bytes, [], ap, arith, false, inl, inr, le→leb, pos, refl, some,
  true, wrap_int64, ℕ, ◌++◌, ◌+ℤ◌, ◌-ℤ◌, ◌==◌, ◌∷◌, ◌≡◌, ◌≤◌, ◌⊎◌, if◌then◌else◌,
}
use trino_log_sink.Event.{Duration}
use trino_log_sink.Event.Durations.{
  Floats, is_number_byte, scale, scale_of, span_number, no_scale, outside_time,
}

-- A digit, a point or a minus sign.
abbrev pub IsNumberByte : ℕ → Type 0
IsNumberByte c = (b'0' ≤ c) × (c ≤ b'9') ⊎ ((c ≡ b'.') ⊎ (c ≡ b'-'))

-- The units with their nanoseconds: days stand before and behind the mark, hours, minutes and seconds behind it.
pub data IsUnit : Bool → ℕ → ℕ → Type 0 where
  day_unit : {in_time : Bool} → IsUnit in_time b'D' 86_400_000_000_000
  hour_unit : IsUnit true b'H' 3_600_000_000_000
  minute_unit : IsUnit true b'M' 60_000_000_000
  second_unit : IsUnit true b'S' 1_000_000_000

module _ {F : Type 0} (floats : Floats F) where
  -- `Reads in_time total s d`: the text is a sequence of amounts and marks of the time part, and the total with the
  -- amounts added to it is d.
  pub data Reads : Bool → Duration → Bytes → Duration → Type 0 where
    reads_end : {in_time : Bool} {total : Duration} → Reads in_time total [] total
    reads_mark :
        {in_time : Bool} {total d : Duration} {s : Bytes}
        → Reads true total s d
        → Reads in_time total (b'T' ∷ s) d
    reads_amount :
        {in_time : Bool} {total d : Duration} {s : Bytes} (c : ℕ) (num : Bytes) (unit n : ℕ) (f : F)
        → All IsNumberByte (c ∷ num)
        → floats.parse_float (c ∷ num) ≡ some f
        → IsUnit in_time unit n
        → Reads in_time (wrap_int64 (total +ℤ floats.scaled f (pos n))) s d
        → Reads in_time total (c ∷ num ++ unit ∷ s) d

  -- The texts of a sign, P and such a sequence, and the empty text.
  pub data IsDuration : Bytes → Duration → Type 0 where
    empty : IsDuration [] (pos 0)
    unsigned : {s : Bytes} {d : Duration} → Reads false (pos 0) s d → IsDuration (b'P' ∷ s) d
    plus : {s : Bytes} {d : Duration} → Reads false (pos 0) s d → IsDuration (b'+' ∷ b'P' ∷ s) d
    minus :
        {s : Bytes} {d : Duration}
        → Reads false (pos 0) s d
        → IsDuration (b'-' ∷ b'P' ∷ s) (wrap_int64 (pos 0 -ℤ d))

pub span_number-append : (s : Bytes) → (span_number s).0 ++ (span_number s).1 ≡ s
unfolding span_number
span_number-append [] = refl
span_number-append (c ∷ s) = elim (Bool-cases (is_number_byte c)) [
  | inl b ↦ rw b (ap (◌∷◌ c) (span_number-append s))
  | inr b ↦ rw b refl
]

pub IsNumberByte-cases : (c : ℕ) → is_number_byte c ≡ true → IsNumberByte c
unfolding is_number_byte
IsNumberByte-cases c h = elim (Bool-cases (c == b'.')) [
  | inl a ↦ inr (inl ((==_iff c b'.').0 a))
  | inr a ↦ elim (Bool-cases (c == b'-')) [
    | inl b ↦ inr (inr ((==_iff c b'-').0 b))
    | inr b ↦ inl (ground arith, ground arith)
  ]
]

pub IsNumberByte-is_number_byte : (c : ℕ) → IsNumberByte c → is_number_byte c ≡ true
unfolding is_number_byte
IsNumberByte-is_number_byte c (inl (a, b)) = rw (le→leb b'0' c a, le→leb c b'9' b) (ground arith)
IsNumberByte-is_number_byte c (inr (inl e)) = rw e refl
IsNumberByte-is_number_byte c (inr (inr e)) = rw e refl

scaled : {m n : ℕ} → scale m ≡ scale n → m ≡ n
scaled h = cc

-- A unit of the time part that is accepted stands in that part.
timed :
    (in_time : Bool) (unit n m u : ℕ)
    → unit ≡ u
    → (if in_time then scale m else no_scale (outside_time unit)) ≡ scale n
    → IsUnit true u m
    → IsUnit in_time unit n
timed true unit n m u e h k = subst (IsUnit true unit) (scaled h) (rw e k)
timed false unit n m u e h k = cc

pub scale_of-IsUnit :
    (in_time : Bool) (unit n : ℕ) → scale_of in_time unit ≡ scale n → IsUnit in_time unit n
unfolding scale_of
scale_of-IsUnit in_time unit n h = elim (Bool-cases (unit == b'D')) [
  | inl a ↦ subst (IsUnit in_time unit) (scaled (rw a at h)) (rw ((==_iff unit b'D').0 a) day_unit)
  | inr a ↦ elim (Bool-cases (unit == b'H')) [
    | inl b ↦ timed in_time unit n _ b'H' ((==_iff unit b'H').0 b) (rw (a, b) at h) hour_unit
    | inr b ↦ elim (Bool-cases (unit == b'M')) [
      | inl c ↦ timed in_time unit n _ b'M' ((==_iff unit b'M').0 c) (rw (a, b, c) at h) minute_unit
      | inr c ↦ elim (Bool-cases (unit == b'S')) [
        | inl d ↦
            timed in_time unit n _ b'S' ((==_iff unit b'S').0 d) (rw (a, b, c, d) at h) second_unit
        | inr d ↦ let k = rw (a, b, c, d) at h in cc
      ]
    ]
  ]
]

pub IsUnit-scale_of :
    {in_time : Bool} {unit n : ℕ} → IsUnit in_time unit n → scale_of in_time unit ≡ scale n
unfolding scale_of
IsUnit-scale_of day_unit = refl
IsUnit-scale_of hour_unit = refl
IsUnit-scale_of minute_unit = refl
IsUnit-scale_of second_unit = refl

pub span_number-All : (s : Bytes) → All IsNumberByte (span_number s).0
unfolding span_number
span_number-All [] = tt
span_number-All (c ∷ s) = elim (Bool-cases (is_number_byte c)) [
  | inl b ↦ rw b (IsNumberByte-cases c b, span_number-All s)
  | inr b ↦ rw b tt
]

-- A number is read up to the first byte that is not part of one.
pub span_number_stops :
    (num : Bytes) (unit : ℕ) (s : Bytes)
    → All IsNumberByte num
    → is_number_byte unit ≡ false
    → span_number (num ++ unit ∷ s) ≡ (num, unit ∷ s)
unfolding span_number
span_number_stops [] unit s h k = rw k refl
span_number_stops (c ∷ num) unit s (b, h) k =
    rw (IsNumberByte-is_number_byte c b, span_number_stops num unit s h k) refl

-- No unit is part of a number, and T is neither.
pub scale_of_byte :
    (in_time : Bool) (unit n : ℕ) → scale_of in_time unit ≡ scale n → is_number_byte unit ≡ false
unfolding scale_of is_number_byte
scale_of_byte in_time unit n h = ground arith

pub number_byte-mark : (c : ℕ) → is_number_byte c ≡ true → (c == b'T') ≡ false
unfolding is_number_byte
number_byte-mark c h = ground arith
