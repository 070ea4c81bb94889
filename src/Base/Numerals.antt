-- ===== src/Base/Numerals.antt =====
-- `strconv.Atoi` reads what `strconv.Itoa` and `%d` print.
use Prim.Native.Nat.{ℕ, zero, suc, ◌+◌, ◌-◌, ◌*◌, ◌/◌, ◌%◌, ◌^◌, ◌<◌}
use mathlib.Core.Path.{◌≡◌, refl, sym, ap, subst, ◌∙◌}
use mathlib.Core.Bool.{false}
use mathlib.Core.Option.{some}
use mathlib.Core.List.{[], ◌∷◌}
use native.Mathlib.Omega.{arith, pow_step}
use native.Mathlib.Decide.{dec_lt}
use trino_log_sink.Base.Tests.{le→leb, lt→ltb, ◌==◌}
use trino_log_sink.Base.Lists.{All}
use trino_log_sink.Base.Int.{FitsInt64, negsuc, pos, ℤ}
use trino_log_sink.Base.Text.{Bytes}
use trino_log_sink.Base.Decimal.{
  IsDigit, decimal, decimal-IsDigit, decimal_digits, decimal_digits_last, decimal_digits_next,
  decimal_first, itoa,
}
use trino_log_sink.Base.Words.{atoi, atoi_negative, atoi_positive, digits, digits_from, is_digit}

pub digits_from_digit :
    (m n : ℕ) (s : Bytes) → n < 10 → digits_from m ((b'0' + n) ∷ s) ≡ digits_from (10 * m + n) s
unfolding digits_from is_digit
digits_from_digit m n s h =
    let e : b'0' + n - b'0' ≡ n = omega arith in
    rw (le→leb 48 (48 + n) (omega arith), le→leb (48 + n) 57 (omega arith), e) refl

-- The digits of a number, read behind nothing, are that number.
digits_from-decimal_digits :
    (fuel n : ℕ) (out : Bytes)
    → n < 10 ^ suc fuel
    → digits_from 0 (decimal_digits (suc fuel) n out) ≡ digits_from n out
digits_from-decimal_digits zero n out h =
    let l : n < 10 = omega arith in
    rw (decimal_digits_last 0 n out l)
      (digits_from_digit 0 n out l ∙ ap (λ x. digits_from x out) (omega arith))
digits_from-decimal_digits (suc fuel) n out h = elim (dec_lt n 10) [
  | yes l ↦
      rw (decimal_digits_last (suc fuel) n out l)
        (digits_from_digit 0 n out l ∙ ap (λ x. digits_from x out) (omega arith))
  | no l ↦ rw (decimal_digits_next (suc fuel) n out (omega arith)) (
      digits_from-decimal_digits fuel (n / 10) ((b'0' + n % 10) ∷ out)
        (let e = pow_step 10 (suc fuel) in omega arith)
      ∙ (digits_from_digit (n / 10) (n % 10) out (omega arith)
          ∙ ap (λ x. digits_from x out) (omega arith)))
]

decimal_digits-decimal : (n : ℕ) → decimal n ≡ decimal_digits 20 n []
unfolding decimal
decimal_digits-decimal n = refl

digits_first : (c : ℕ) (s : Bytes) → digits (c ∷ s) ≡ digits_from 0 (c ∷ s)
unfolding digits
digits_first c s = refl

digits_end : (n : ℕ) → digits_from n [] ≡ some n
unfolding digits_from
digits_end n = refl

pub digits-decimal : (n : ℕ) → n < 10 ^ 20 → digits (decimal n) ≡ some n
digits-decimal n h =
    let (c, s, e) = decimal_first n in
    rw (e, digits_first c s, ← e, decimal_digits-decimal n)
      (digits_from-decimal_digits 19 n [] h ∙ digits_end n)

atoi_positive_lt : (n : ℕ) → n < 2 ^ 63 → atoi_positive (some n) ≡ some (pos n)
unfolding atoi_positive
atoi_positive_lt n h = rw (lt→ltb n 9_223_372_036_854_775_808 h) refl

atoi_negative_lt : (n : ℕ) → n < 2 ^ 63 → atoi_negative (some (suc n)) ≡ some (negsuc n)
unfolding atoi_negative
atoi_negative_lt n h = rw (lt→ltb n 9_223_372_036_854_775_808 h) refl

atoi_unsigned : (c : ℕ) (s : Bytes) → IsDigit c → atoi (c ∷ s) ≡ atoi_positive (digits (c ∷ s))
unfolding atoi
atoi_unsigned c s h =
    let a : (c == b'-') ≡ false = ground arith in
    let b : (c == b'+') ≡ false = ground arith in rw (a, b) refl

atoi_minus : (s : Bytes) → atoi (b'-' ∷ s) ≡ atoi_negative (digits s)
unfolding atoi
atoi_minus s = refl

pub atoi-decimal : (n : ℕ) → n < 2 ^ 63 → atoi (decimal n) ≡ some (pos n)
atoi-decimal n h =
    let (c, s, e) = decimal_first n in
    let d : All IsDigit (c ∷ s) = subst (All IsDigit) e (decimal-IsDigit n) in
    rw e (atoi_unsigned c s d.0)
    ∙ (ap (λ x. atoi_positive (digits x)) (sym e)
        ∙ (ap atoi_positive (digits-decimal n (omega arith)) ∙ atoi_positive_lt n h))

pub atoi-itoa : (n : ℤ) → FitsInt64 n → atoi (itoa n) ≡ some n
unfolding itoa
atoi-itoa (pos n) h = atoi-decimal n h.0
atoi-itoa (negsuc n) h =
    atoi_minus (decimal (suc n))
    ∙ (ap atoi_negative (digits-decimal (suc n) (omega arith)) ∙ atoi_negative_lt n (omega arith))
