-- ===== src/Base/Decimal.antt =====
-- Numbers in decimal, as `strconv.Itoa` and `%d` print them.
use Prim.Native.Nat.{ℕ, zero, suc, ◌+◌, ◌/◌, ◌%◌, ◌≤◌, ◌<◌}
use mathlib.Core.Path.{◌≡◌, refl, ◌∙◌}
use mathlib.Core.List.{[], ◌∷◌}
use trino_log_sink.Base.Int.{negsuc, pos, ℤ}
use native.Mathlib.Omega.{arith}
use trino_log_sink.Base.Tests.{if_intro, if◌then◌else◌, ◌==◌}
use trino_log_sink.Base.Lists.{All, length}
use trino_log_sink.Base.Text.{Bytes}

-- Decimal digits, as `%d` prints a length; `fuel` rounds are enough for a number below `10 ^ fuel`.
unfoldable pub decimal_digits : ℕ → ℕ → Bytes → Bytes
decimal_digits zero n out = out
decimal_digits (suc fuel) n out =
    let out' = (b'0' + n % 10) ∷ out in
    let more = decimal_digits fuel (n / 10) out' in if n / 10 == 0 then out' else more

-- `fmt.Sprintf("%d", n)` for an `int` that is not negative.
unfoldable pub decimal : ℕ → Bytes
unfolding decimal_digits
decimal n = decimal_digits 20 n []

-- `%d` of an `int` or an `int64`.
unfoldable pub itoa : ℤ → Bytes
unfolding decimal
itoa (pos n) = decimal n
itoa (negsuc n) = b'-' ∷ decimal (suc n)

decimal_digits-ge : (fuel n : ℕ) (out : Bytes) → length out ≤ length (decimal_digits fuel n out)
unfolding decimal_digits
decimal_digits-ge zero n out = omega arith
decimal_digits-ge (suc fuel) n out =
    ground (arith, decimal_digits-ge fuel (n / 10) ((b'0' + n % 10) ∷ out))

-- A smaller number has no more digits.
decimal_digits_mono :
    (fuel m n : ℕ) (out out' : Bytes)
    → m ≤ n
    → length out ≤ length out'
    → length (decimal_digits fuel m out) ≤ length (decimal_digits fuel n out')
unfolding decimal_digits
decimal_digits_mono zero m n out out' h k = k
decimal_digits_mono (suc fuel) m n out out' h k = ground (
  arith,
  decimal_digits-ge fuel (n / 10) ((b'0' + n % 10) ∷ out'),
  decimal_digits_mono fuel (m / 10) (n / 10) ((b'0' + m % 10) ∷ out) ((b'0' + n % 10) ∷ out'),
)

pub length-decimal_mono : (m n : ℕ) → m ≤ n → length (decimal m) ≤ length (decimal n)
unfolding decimal
length-decimal_mono m n h = decimal_digits_mono 20 m n [] [] h (omega arith)

abbrev pub IsDigit : ℕ → Type 0
IsDigit c = (b'0' ≤ c) × (c ≤ b'9')

decimal_digits-IsDigit :
    (fuel n : ℕ) (out : Bytes) → All IsDigit out → All IsDigit (decimal_digits fuel n out)
unfolding decimal_digits
decimal_digits-IsDigit zero n out h = h
decimal_digits-IsDigit (suc fuel) n out h =
    if_intro (All IsDigit) (n / 10 == 0) (omega arith, h)
      (decimal_digits-IsDigit fuel (n / 10) ((b'0' + n % 10) ∷ out) (omega arith, h))

pub decimal-IsDigit : (n : ℕ) → All IsDigit (decimal n)
unfolding decimal
decimal-IsDigit n = decimal_digits-IsDigit 20 n [] tt

decimal_digits_grows :
    (fuel n : ℕ) (out : Bytes) → suc (length out) ≤ length (decimal_digits (suc fuel) n out)
unfolding decimal_digits
decimal_digits_grows fuel n out =
    ground (arith, decimal_digits-ge fuel (n / 10) ((b'0' + n % 10) ∷ out))

first_of : (s : Bytes) → 1 ≤ length s → (c : ℕ) × (t : Bytes) × (s ≡ c ∷ t)
first_of [] h = absurd (omega arith)
first_of (c ∷ s) h = (c, s, refl)

-- A number has a first digit.
pub decimal_first : (n : ℕ) → (c : ℕ) × (t : Bytes) × (decimal n ≡ c ∷ t)
unfolding decimal
decimal_first n = first_of (decimal_digits 20 n []) (decimal_digits_grows 19 n [])

pub decimal_digits_last :
    (fuel n : ℕ) (out : Bytes) → n < 10 → decimal_digits (suc fuel) n out ≡ (b'0' + n) ∷ out
unfolding decimal_digits
decimal_digits_last fuel n out h = ground arith

pub decimal_digits_next :
    (fuel n : ℕ) (out : Bytes)
    → 10 ≤ n
    → decimal_digits (suc fuel) n out ≡ decimal_digits fuel (n / 10) ((b'0' + n % 10) ∷ out)
unfolding decimal_digits
decimal_digits_next fuel n out h = ground arith

pub decimal_one : (n : ℕ) → n < 10 → decimal n ≡ (b'0' + n) ∷ []
unfolding decimal
decimal_one n h = decimal_digits_last 19 n [] h

pub decimal_two : (n : ℕ) → 10 ≤ n → n < 100 → decimal n ≡ (b'0' + n / 10) ∷ (b'0' + n % 10) ∷ []
unfolding decimal
decimal_two n h k = decimal_digits_next 19 n [] h ∙ decimal_digits_last 18 (n / 10) _ (omega arith)

pub decimal_three :
    (n : ℕ)
    → 100 ≤ n
    → n < 1000
    → decimal n ≡ (b'0' + n / 10 / 10) ∷ (b'0' + n / 10 % 10) ∷ (b'0' + n % 10) ∷ []
unfolding decimal
decimal_three n h k =
    decimal_digits_next 19 n [] (omega arith)
    ∙ decimal_digits_next 18 (n / 10) _ (omega arith)
    ∙ decimal_digits_last 17 (n / 10 / 10) _ (omega arith)

pub decimal_four :
    (n : ℕ)
    → 1000 ≤ n
    → n < 10000
    → decimal n
      ≡ (b'0' + n / 10 / 10 / 10)
        ∷ (b'0' + n / 10 / 10 % 10)
        ∷ (b'0' + n / 10 % 10)
        ∷ (b'0' + n % 10)
        ∷ []
unfolding decimal
decimal_four n h k =
    decimal_digits_next 19 n [] (omega arith)
    ∙ decimal_digits_next 18 (n / 10) _ (omega arith)
    ∙ decimal_digits_next 17 (n / 10 / 10) _ (omega arith)
    ∙ decimal_digits_last 16 (n / 10 / 10 / 10) _ (omega arith)
