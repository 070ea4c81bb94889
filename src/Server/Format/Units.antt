-- ===== src/Server/Format/Units.antt =====
-- internal/server/format.go: `humanBytes` and `humanMillis`, with the quotients that are printed in floating
-- point as arguments.
pub mod Scaled
use mathlib.Core.Path.{subst}
use native.Mathlib.Decide.{dec_lt}
use trino_log_sink.Base.{
  Bytes, Option, [], ap, arith, codes, decimal, if◌then◌else◌, itoa, leb, leb_ℤ, le→leb, le→not-ltb,
  ltb, ltb_ℤ, lt→not-leb, none, pos, pos_part, refl, some, suc, wrap_int64, zero, ℕ, ℤ, ◌%◌, ◌*◌,
  ◌++◌, ◌+◌, ◌/◌, ◌<◌, ◌^◌, ◌∙◌, ◌∷◌, ◌≡◌, ◌≤◌,
}
use trino_log_sink.Event.Durations.{hour, minute, second}

-- The loop of `humanBytes`, with its variables x, div and exp; none when the fuel is used up.
unfoldable pub scale_loop : ℕ → ℕ → ℕ → ℕ → Option (ℕ × ℕ)
scale_loop zero x div exp = none
scale_loop (suc fuel) x div exp =
    let rest = scale_loop fuel (x / 1024) (div * 1024) (suc exp) in
    if leb 1024 x then rest else some (div, exp)

-- `"KMGTPE"[exp]`; none when the index is out of range, which panics.
unfoldable pub unit_letter : ℕ → Option ℕ
unit_letter zero = some b'K'
unit_letter (suc zero) = some b'M'
unit_letter (suc (suc zero)) = some b'G'
unit_letter (suc (suc (suc zero))) = some b'T'
unit_letter (suc (suc (suc (suc zero)))) = some b'P'
unit_letter (suc (suc (suc (suc (suc zero))))) = some b'E'
unit_letter (suc (suc (suc (suc (suc (suc n)))))) = none

-- `quotient` is "%.1f" of n / div.
unfoldable pub scaled_text : (ℕ → ℕ → Bytes) → ℕ → Option (ℕ × ℕ) → Option Bytes
unfolding unit_letter
scaled_text quotient n none = none
scaled_text quotient n (some (div, exp)) = elim (unit_letter exp) [
  | none ↦ none
  | some c ↦ some (quotient n div ++ b' ' ∷ c ∷ codes "iB")
]

-- `humanBytes`: none when it panics. Six rounds of the loop are enough for an int64.
unfoldable pub human_bytes : (ℕ → ℕ → Bytes) → ℤ → Option Bytes
unfolding scale_loop scaled_text decimal
human_bytes quotient n =
    if leb_ℤ n (pos 0)
    then some (codes "0")
    else if ltb (pos_part n) 1024
    then some (decimal (pos_part n) ++ codes " B")
    else scaled_text quotient (pos_part n) (scale_loop 6 (pos_part n / 1024) 1024 0)

unfoldable pub human_bytes_ptr : (ℕ → ℕ → Bytes) → Option ℤ → Option Bytes
unfolding human_bytes
human_bytes_ptr quotient none = some (0xe2 ∷ 0x80 ∷ 0x94 ∷ [])
human_bytes_ptr quotient (some n) = human_bytes quotient n

-- `humanMillis`; `seconds` is "%.2fs" of the seconds of a duration. The minutes and hours that are cut to an int are
-- the whole ones: a fraction is at most 1 - 1 / 3600000, which a float64 of at most 2 ^ 28 keeps below 1.
unfoldable pub human_millis : (ℤ → Bytes) → ℤ → Bytes
unfolding decimal itoa
human_millis seconds ms =
    if leb_ℤ ms (pos 0)
    then codes "0"
    else let d = wrap_int64 (pos (pos_part ms * 1_000_000)) in
      if ltb_ℤ d (pos second)
      then itoa ms ++ codes "ms"
      else if ltb_ℤ d (pos minute)
      then seconds d
      else if ltb_ℤ d (pos hour)
      then decimal (pos_part d / minute)
        ++ codes "m"
        ++ decimal (pos_part d / second % 60)
        ++ codes "s"
      else decimal (pos_part d / hour)
        ++ codes "h"
        ++ decimal (pos_part d / minute % 60)
        ++ codes "m"
