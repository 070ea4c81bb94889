-- ===== src/Server/Format/Units/Scaled.antt =====
-- internal/server/format.go: the loop of humanBytes ends at a letter, and what is printed.
use mathlib.Core.Path.{subst}
use native.Mathlib.Decide.{dec_lt}
use trino_log_sink.Base.{
  Bytes, Option, ap, arith, codes, le→leb, le→not-ltb, lt→not-leb, pos, refl, some, suc, zero, ℕ,
  ◌*◌, ◌++◌, ◌+◌, ◌/◌, ◌<◌, ◌^◌, ◌∙◌, ◌∷◌, ◌≡◌, ◌≤◌,
}
use trino_log_sink.Server.Format.Units.{human_bytes, scale_loop, scaled_text, unit_letter}

scale_last : (fuel x div exp : ℕ) → x < 1024 → scale_loop (suc fuel) x div exp ≡ some (div, exp)
unfolding scale_loop
scale_last fuel x div exp h = rw (lt→not-leb 1024 x h) refl

scale_next :
    (fuel x div exp : ℕ)
    → 1024 ≤ x
    → scale_loop (suc fuel) x div exp ≡ scale_loop fuel (x / 1024) (div * 1024) (suc exp)
unfolding scale_loop
scale_next fuel x div exp h = rw (le→leb 1024 x h) refl

-- What the loop ends with for a number.
abbrev Scaled : ℕ → Option (ℕ × ℕ) → Type 0
Scaled n o =
    (div : ℕ) × (exp : ℕ) × (o ≡ some (div, exp))
    × (exp ≤ 5)
    × (div ≡ 1024 ^ suc exp)
    × (div ≤ n)
    × (n < 1024 * div)

from_5 :
    (n : ℕ)
    → 1024 ^ 6 ≤ n
    → n < 2 ^ 63
    → Scaled n (scale_loop 1 (n / 1024 / 1024 / 1024 / 1024 / 1024 / 1024) 1152921504606846976 5)
from_5 n h k = (
  1152921504606846976,
  5,
  scale_last 0 (n / 1024 / 1024 / 1024 / 1024 / 1024 / 1024) 1152921504606846976 5 (omega arith),
  omega arith,
  refl,
  omega arith,
  omega arith,
)

from_4 :
    (n : ℕ)
    → 1024 ^ 5 ≤ n
    → n < 2 ^ 63
    → Scaled n (scale_loop 2 (n / 1024 / 1024 / 1024 / 1024 / 1024) 1125899906842624 4)
from_4 n h k = elim (dec_lt n (1024 ^ 6)) [
  | yes l4 ↦ (
    1125899906842624,
    4,
    scale_last 1 (n / 1024 / 1024 / 1024 / 1024 / 1024) 1125899906842624 4 (omega arith),
    omega arith,
    refl,
    omega arith,
    omega arith,
  )
  | no l4 ↦
      rw (scale_next 1 (n / 1024 / 1024 / 1024 / 1024 / 1024) 1125899906842624 4 (omega arith))
        (from_5 n (omega arith) k)
]

from_3 :
    (n : ℕ)
    → 1024 ^ 4 ≤ n
    → n < 2 ^ 63
    → Scaled n (scale_loop 3 (n / 1024 / 1024 / 1024 / 1024) 1099511627776 3)
from_3 n h k = elim (dec_lt n (1024 ^ 5)) [
  | yes l3 ↦ (
    1099511627776,
    3,
    scale_last 2 (n / 1024 / 1024 / 1024 / 1024) 1099511627776 3 (omega arith),
    omega arith,
    refl,
    omega arith,
    omega arith,
  )
  | no l3 ↦
      rw (scale_next 2 (n / 1024 / 1024 / 1024 / 1024) 1099511627776 3 (omega arith))
        (from_4 n (omega arith) k)
]

from_2 :
    (n : ℕ)
    → 1024 ^ 3 ≤ n
    → n < 2 ^ 63
    → Scaled n (scale_loop 4 (n / 1024 / 1024 / 1024) 1073741824 2)
from_2 n h k = elim (dec_lt n (1024 ^ 4)) [
  | yes l2 ↦ (
    1073741824,
    2,
    scale_last 3 (n / 1024 / 1024 / 1024) 1073741824 2 (omega arith),
    omega arith,
    refl,
    omega arith,
    omega arith,
  )
  | no l2 ↦
      rw (scale_next 3 (n / 1024 / 1024 / 1024) 1073741824 2 (omega arith))
        (from_3 n (omega arith) k)
]

from_1 : (n : ℕ) → 1024 ^ 2 ≤ n → n < 2 ^ 63 → Scaled n (scale_loop 5 (n / 1024 / 1024) 1048576 1)
from_1 n h k = elim (dec_lt n (1024 ^ 3)) [
  | yes l1 ↦ (
    1048576,
    1,
    scale_last 4 (n / 1024 / 1024) 1048576 1 (omega arith),
    omega arith,
    refl,
    omega arith,
    omega arith,
  )
  | no l1 ↦ rw (scale_next 4 (n / 1024 / 1024) 1048576 1 (omega arith)) (from_2 n (omega arith) k)
]

-- For 1024 up to the greatest int64, the loop of humanBytes ends within six rounds, at an exponent that has a letter and a
-- divisor 1024 ^ (exp + 1) that is not above the number and above a 1024th of it.
scale_loop-Scaled : (n : ℕ) → 1024 ≤ n → n < 2 ^ 63 → Scaled n (scale_loop 6 (n / 1024) 1024 0)
scale_loop-Scaled n h k = elim (dec_lt n (1024 ^ 2)) [
  | yes l0 ↦ (
    1024,
    0,
    scale_last 5 (n / 1024) 1024 0 (omega arith),
    omega arith,
    refl,
    omega arith,
    omega arith,
  )
  | no l0 ↦ rw (scale_next 5 (n / 1024) 1024 0 (omega arith)) (from_1 n (omega arith) k)
]

human_bytes_scaled :
    (quotient : ℕ → ℕ → Bytes) (n : ℕ)
    → 1024 ≤ n
    → human_bytes quotient (pos n) ≡ scaled_text quotient n (scale_loop 6 (n / 1024) 1024 0)
unfolding human_bytes
human_bytes_scaled quotient n h = rw (lt→not-leb (n + 0) 0 (omega arith), le→not-ltb n 1024 h) refl

scaled_text_letter :
    (quotient : ℕ → ℕ → Bytes) (n div exp c : ℕ)
    → unit_letter exp ≡ some c
    → scaled_text quotient n (some (div, exp)) ≡ some (quotient n div ++ b' ' ∷ c ∷ codes "iB")
unfolding scaled_text
scaled_text_letter quotient n div exp c h = rw (h, scaled_text) refl

-- The binary units of IEC 80000-13, each with its prefix: kibi, mebi, gibi, tebi, pebi and exbi.
pub data IsUnit : ℕ → ℕ → Type 0 where
  kibi : IsUnit (2 ^ 10) b'K'
  mebi : IsUnit (2 ^ 20) b'M'
  gibi : IsUnit (2 ^ 30) b'G'
  tebi : IsUnit (2 ^ 40) b'T'
  pebi : IsUnit (2 ^ 50) b'P'
  exbi : IsUnit (2 ^ 60) b'E'

unit_letter-IsUnit :
    (exp : ℕ) → exp ≤ 5 → (c : ℕ) × (unit_letter exp ≡ some c) × IsUnit (1024 ^ suc exp) c
unfolding unit_letter
unit_letter-IsUnit zero h = (_, refl, kibi)
unit_letter-IsUnit (suc zero) h = (_, refl, mebi)
unit_letter-IsUnit (suc (suc zero)) h = (_, refl, gibi)
unit_letter-IsUnit (suc (suc (suc zero))) h = (_, refl, tebi)
unit_letter-IsUnit (suc (suc (suc (suc zero)))) h = (_, refl, pebi)
unit_letter-IsUnit (suc (suc (suc (suc (suc zero))))) h = (_, refl, exbi)
unit_letter-IsUnit (suc (suc (suc (suc (suc (suc n)))))) h = absurd (omega arith)

-- What humanBytes prints of a number: its quotient by the greatest unit that is not above it, and the prefix of
-- that unit.
abbrev pub Prints : (ℕ → ℕ → Bytes) → ℕ → Option Bytes → Type 0
Prints quotient n o =
    (unit : ℕ) × (c : ℕ) × IsUnit unit c
    × (o ≡ some (quotient n unit ++ b' ' ∷ c ∷ codes "iB"))
    × (unit ≤ n)
    × (n < 1024 * unit)

-- From 1024 to the greatest int64, humanBytes does not panic, and prints the quotient by a binary unit of KiB to
-- EiB that is not above the number and above a 1024th of it, with the prefix of that unit.
pub human_bytes-Prints :
    (quotient : ℕ → ℕ → Bytes) (n : ℕ)
    → 1024 ≤ n
    → n < 2 ^ 63
    → Prints quotient n (human_bytes quotient (pos n))
human_bytes-Prints quotient n h k =
    let (div, exp, e, small, d, lo, hi) = scale_loop-Scaled n h k in
    let (c, l, u) = unit_letter-IsUnit exp small in
    (
      1024 ^ suc exp,
      c,
      u,
      human_bytes_scaled quotient n h
          ∙ (ap (scaled_text quotient n) e
              ∙ (scaled_text_letter quotient n div exp c l
                  ∙ ap (λ x. some (quotient n x ++ b' ' ∷ c ∷ codes "iB")) d)),
      subst (λ x. x ≤ n) d lo,
      subst (λ x. n < 1024 * x) d hi,
    )
