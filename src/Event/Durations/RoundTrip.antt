-- ===== src/Event/Durations/RoundTrip.antt =====
-- internal/event/duration.go: printed durations of whole hours, minutes and seconds are read back.
use mathlib.Core.Path.{subst}
use trino_log_sink.Base.{
  All, All-imp, Bytes, IsDigit, [], ap, arith, decimal, decimal-IsDigit, decimal_first, inl, pos,
  pos_+ℤ, refl, some, sym, true, wrap_int64, wrap_int64_fits, ℕ, ◌*◌, ◌++◌, ◌+ℤ◌, ◌+◌, ◌^◌, ◌∙◌,
  ◌∷◌, ◌≡◌, ◌≤◌,
}
use trino_log_sink.Event.{Duration}
use trino_log_sink.Event.Durations.{Floats, hour, minute, ok, parse_duration, second}
use trino_log_sink.Event.Durations.Grammar.{
  IsNumberByte, IsUnit, Reads, hour_unit, minute_unit, reads_amount, reads_end, reads_mark,
  second_unit, unsigned,
}
use trino_log_sink.Event.Durations.Accepts.{IsDuration-parse_duration}

-- Floating point with 53 bits is exact on whole numbers up to 2 ^ 53.
abbrev pub IsExact : {F : Type 0} → Floats F → Type 0
IsExact {F} floats =
    (n k : ℕ)
    → n ≤ 2 ^ 53
    → n * k ≤ 2 ^ 53
    → (f : F) × (floats.parse_float (decimal n) ≡ some f) × (floats.scaled f (pos k) ≡ pos (n * k))

-- The text of `java.time.Duration` with all three parts written.
unfoldable pub print_duration : ℕ → ℕ → ℕ → Bytes
unfolding decimal
print_duration h m s =
    b'P' ∷ b'T' ∷ (decimal h ++ b'H' ∷ (decimal m ++ b'M' ∷ (decimal s ++ b'S' ∷ [])))

IsDigit-IsNumberByte : (c : ℕ) → IsDigit c → IsNumberByte c
IsDigit-IsNumberByte c h = inl (ground arith, ground arith)

module _ {F : Type 0} (floats : Floats F) (exact : IsExact floats) where
  Reads-decimal :
      {d : Duration} {s : Bytes} (n k t t' unit : ℕ)
      → IsUnit true unit k
      → n ≤ 2 ^ 53
      → t' ≡ t + n * k
      → t' ≤ 2 ^ 53
      → Reads floats true (pos t') s d
      → Reads floats true (pos t) (decimal n ++ unit ∷ s) d
  Reads-decimal {d} {s} n k t t' unit e b i h r =
      let (f, p, q) = exact n k b (omega arith) in
      let (c, num, l) = decimal_first n in
      let sum : wrap_int64 (pos t +ℤ floats.scaled f (pos k)) ≡ pos t' =
        ap (λ x. wrap_int64 (pos t +ℤ x)) q
        ∙ ap wrap_int64 (pos_+ℤ t (n * k) ∙ ap pos (sym i))
        ∙ wrap_int64_fits (pos t') (omega arith) in
      let digits : All IsNumberByte (c ∷ num) =
        subst (All IsNumberByte) l (All-imp IsDigit-IsNumberByte (decimal n) (decimal-IsDigit n)) in
      subst (λ x. Reads floats true (pos t) (x ++ unit ∷ s) d) (sym l)
        (reads_amount c num unit k f digits (subst (λ x. floats.parse_float x ≡ some f) l p) e
          (subst (λ x. Reads floats true x s d) (sym sum) r))

  -- With floating point that is exact on whole numbers up to 2 ^ 53, the text of a duration of at most 2 ^ 53
  -- nanoseconds in whole hours, minutes and seconds is read as that duration.
  pub parse_duration-print_duration :
      (h m s : ℕ)
      → h * hour + m * minute + s * second ≤ 2 ^ 53
      → parse_duration floats (print_duration h m s)
        ≡ some (ok (pos (h * hour + m * minute + s * second)))
  unfolding print_duration
  parse_duration-print_duration h m s k =
      let total = h * hour + m * minute + s * second in
      IsDuration-parse_duration floats (
        unsigned (
          reads_mark (
            Reads-decimal h hour 0 (h * hour) b'H' hour_unit (omega arith) (omega arith)
              (omega arith)
              (Reads-decimal m minute (h * hour) (h * hour + m * minute) b'M' minute_unit
                (omega arith) refl (omega arith)
                (Reads-decimal s second (h * hour + m * minute) total b'S' second_unit (omega arith)
                  refl k reads_end)))))
