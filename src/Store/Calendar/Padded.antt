-- ===== src/Store/Calendar/Padded.antt =====
-- The numbers with leading zeros that `Time.Format` prints: their digits, the numbers that they are, and
-- their order as texts.
use native.Mathlib.Decide.{dec_lt}
use trino_log_sink.Base.{
  All, Bytes, IsDigit, [], ap, arith, bytes_lt, decimal, decimal_four, decimal_one, decimal_three,
  decimal_two, length, ltb, refl, replicate, ℕ, ◌%◌, ◌*◌, ◌++◌, ◌+◌, ◌-◌, ◌/◌, ◌<◌, ◌∙◌, ◌∷◌, ◌≡◌,
}
use trino_log_sink.Store.Calendar.Civil.{padded}

padded_lem : (w n : ℕ) → padded w n ≡ replicate (w - length (decimal n)) b'0' ++ decimal n
unfolding padded
padded_lem w n = refl

pad : (w n : ℕ) (s : Bytes) → decimal n ≡ s → padded w n ≡ replicate (w - length s) b'0' ++ s
pad w n s h = padded_lem w n ∙ ap (λ t. replicate (w - length t) b'0' ++ t) h

eq_two : {a b c d : ℕ} → a ≡ c → b ≡ d → ◌≡◌ {A = Bytes} (a ∷ b ∷ []) (c ∷ d ∷ [])
eq_two h k = rw (h, k) refl

eq_four :
    {a b a' b' : ℕ} {s t : Bytes}
    → a ≡ a'
    → b ≡ b'
    → s ≡ t
    → ◌≡◌ {A = Bytes} (a ∷ b ∷ s) (a' ∷ b' ∷ t)
eq_four h k l = rw (h, k, l) refl

pub padded_two : (n : ℕ) → n < 100 → padded 2 n ≡ (b'0' + n / 10) ∷ (b'0' + n % 10) ∷ []
padded_two n h = elim (dec_lt n 10) [
  | yes l ↦ pad 2 n ((b'0' + n) ∷ []) (decimal_one n l) ∙ eq_two (omega arith) (omega arith)
  | no l ↦ pad 2 n _ (decimal_two n (omega arith) h)
]

pub padded_four :
    (n : ℕ)
    → n < 10000
    → padded 4 n
      ≡ (b'0' + n / 1000) ∷ (b'0' + n / 100 % 10) ∷ (b'0' + n / 10 % 10) ∷ (b'0' + n % 10) ∷ []
padded_four n h = elim (dec_lt n 10) [
  | yes l ↦
      pad 4 n _ (decimal_one n l)
      ∙ eq_four (omega arith) (omega arith) (eq_two (omega arith) (omega arith))
  | no l ↦ elim (dec_lt n 100) [
    | yes k ↦
        pad 4 n _ (decimal_two n (omega arith) k)
        ∙ eq_four (omega arith) (omega arith) (eq_two (omega arith) (omega arith))
    | no k ↦ elim (dec_lt n 1000) [
      | yes j ↦
          pad 4 n _ (decimal_three n (omega arith) j)
          ∙ eq_four (omega arith) (omega arith) (eq_two (omega arith) (omega arith))
      | no j ↦
          pad 4 n _ (decimal_four n (omega arith) h)
          ∙ eq_four (omega arith) (omega arith) (eq_two (omega arith) (omega arith))
    ]
  ]
]

-- The number that a text of digits continues, whatever the bytes are.
unfoldable pub number : ℕ → Bytes → ℕ
number n [] = n
number n (c ∷ s) = number (10 * n + (c - b'0')) s

number_lt :
    (m n : ℕ) (s t : Bytes)
    → m < n
    → All IsDigit s
    → All IsDigit t
    → length s ≡ length t
    → number m s < number n t
unfolding number
number_lt m n [] [] h a b e = h
number_lt m n [] (d ∷ t) h a b e = absurd (omega arith)
number_lt m n (c ∷ s) [] h a b e = absurd (omega arith)
number_lt m n (c ∷ s) (d ∷ t) h (p, a) (q, b) e =
    number_lt (10 * m + (c - b'0')) (10 * n + (d - b'0')) s t (omega arith) a b (omega arith)

-- Texts of as many digits are ordered as their numbers.
pub bytes_lt-number :
    (m : ℕ) (s t : Bytes)
    → All IsDigit s
    → All IsDigit t
    → length s ≡ length t
    → bytes_lt s t ≡ ltb (number m s) (number m t)
unfolding number bytes_lt
bytes_lt-number m [] [] a b e = ground arith
bytes_lt-number m [] (d ∷ t) a b e = absurd (omega arith)
bytes_lt-number m (c ∷ s) [] a b e = absurd (omega arith)
bytes_lt-number m (c ∷ s) (d ∷ t) (p, a) (q, b) e = ground (
  arith,
  bytes_lt-number (10 * m + (c - b'0')) s t,
  number_lt (10 * m + (c - b'0')) (10 * m + (d - b'0')) s t,
  number_lt (10 * m + (d - b'0')) (10 * m + (c - b'0')) t s,
)
