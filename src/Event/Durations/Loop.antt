-- ===== src/Event/Durations/Loop.antt =====
-- internal/event/duration.go: the loop of the parser ends, and reads the amounts and marks that Event/Durations/Grammar
-- describes.
use mathlib.Core.Path.{subst}
use trino_log_sink.Base.{
  ==_iff, All, Bool, Bool-cases, Bytes, Option, Option-cases, [], arith, inl, inr, length,
  length-append, pos, refl, some, suc, sym, true, wrap_int64, zero, ℕ, ◌++◌, ◌+ℤ◌, ◌<◌, ◌==◌, ◌∙◌,
  ◌∷◌, ◌≡◌, ◌≤◌, ◌⊎◌,
}
use trino_log_sink.Event.{Duration}
use trino_log_sink.Event.Durations.{
  DurationError, Floats, Parsed, Scale, amount_step, duration_loop, is_number_byte, no_scale, ok,
  scale, scale_of, span_number,
}
use trino_log_sink.Event.Durations.Grammar.{
  IsNumberByte, Reads, number_byte-mark, reads_amount, reads_end, reads_mark, scale_of_byte,
  span_number-All, span_number-append, span_number_stops, IsNumberByte-is_number_byte,
  IsUnit-scale_of, scale_of-IsUnit,
}

Scale-cases : (k : Scale) → ((n : ℕ) × (k ≡ scale n)) ⊎ ((e : DurationError) × (k ≡ no_scale e))
Scale-cases (scale n) = inl (n, refl)
Scale-cases (no_scale e) = inr (e, refl)

length-span_number : (s : Bytes) → length (span_number s).1 ≤ length s
unfolding span_number
length-span_number [] = omega arith
length-span_number (c ∷ s) = elim (Bool-cases (is_number_byte c)) [
  | inl b ↦ rw b (let l = length-span_number s in omega arith)
  | inr b ↦ rw b (omega arith)
]

abbrev pub HasEnded : Option Parsed → Type 0
HasEnded o = (r : Parsed) × (o ≡ some r)

module _ {F : Type 0} (floats : Floats F) where
  amount_step_ends :
      (next : Duration → Bytes → Option Parsed) (in_time : Bool) (total : Duration)
      (num rest : Bytes)
      → ((total' : Duration) (s : Bytes) → length s < length rest → HasEnded (next total' s))
      → HasEnded (amount_step floats next in_time total num rest)
  unfolding amount_step
  amount_step_ends next in_time total [] rest h = (_, refl)
  amount_step_ends next in_time total (c ∷ num) [] h = (_, refl)
  amount_step_ends next in_time total (c ∷ num) (unit ∷ rest) h =
      elim (Option-cases (floats.parse_float (c ∷ num))) [
        | inl e ↦ rw (e, amount_step) (_, refl)
        | inr (f, e) ↦ elim (Scale-cases (scale_of in_time unit)) [
          | inl (n, k) ↦
              rw (e, amount_step, k)
                (h (wrap_int64 (total +ℤ floats.scaled f (pos n))) rest (omega arith))
          | inr (l, k) ↦ rw (e, amount_step, k) (_, refl)
        ]
      ]

  pub duration_loop_ends :
      (fuel : ℕ) (in_time : Bool) (total : Duration) (s : Bytes)
      → length s < fuel
      → HasEnded (duration_loop floats fuel in_time total s)
  unfolding duration_loop
  duration_loop_ends zero in_time total s h = absurd (omega arith)
  duration_loop_ends (suc fuel) in_time total [] h = (_, refl)
  duration_loop_ends (suc fuel) in_time total (c ∷ s) h = elim (Bool-cases (c == b'T')) [
    | inl b ↦ rw b (duration_loop_ends fuel true total s (omega arith))
    | inr b ↦ rw b (
        amount_step_ends (duration_loop floats fuel in_time) in_time total (span_number (c ∷ s)).0
          (span_number (c ∷ s)).1
          (λ total' t l.
            duration_loop_ends fuel in_time total' t
              (let k = length-span_number (c ∷ s) in omega arith)))
  ]

  -- What a successful round and the rest of the loop have read.
  amount_step-Reads :
      (next : Duration → Bytes → Option Parsed) (in_time : Bool) (total d : Duration)
      (num rest : Bytes)
      → ((total' : Duration) (s : Bytes)
          → next total' s ≡ some (ok d)
          → Reads floats in_time total' s d)
      → All IsNumberByte num
      → amount_step floats next in_time total num rest ≡ some (ok d)
      → Reads floats in_time total (num ++ rest) d
  unfolding amount_step
  amount_step-Reads next in_time total d [] rest h a e = cc
  amount_step-Reads next in_time total d (c ∷ num) [] h a e = cc
  amount_step-Reads next in_time total d (c ∷ num) (unit ∷ rest) h a e =
      elim (Option-cases (floats.parse_float (c ∷ num))) [
        | inl k ↦ let e' = rw (k, amount_step) at e in cc
        | inr (f, k) ↦ elim (Scale-cases (scale_of in_time unit)) [
          | inl (n, l) ↦
              reads_amount c num unit n f a k (scale_of-IsUnit in_time unit n l) (
                h (wrap_int64 (total +ℤ floats.scaled f (pos n))) rest
                  (rw (k, amount_step, l) at e))
          | inr (x, l) ↦ let e' = rw (k, amount_step, l) at e in cc
        ]
      ]

  pub duration_loop-Reads :
      (fuel : ℕ) (in_time : Bool) (total d : Duration) (s : Bytes)
      → duration_loop floats fuel in_time total s ≡ some (ok d)
      → Reads floats in_time total s d
  unfolding duration_loop
  duration_loop-Reads zero in_time total d s e = cc
  duration_loop-Reads (suc fuel) in_time total d [] e =
      let q : total ≡ d = cc in subst (λ x. Reads floats in_time total [] x) q reads_end
  duration_loop-Reads (suc fuel) in_time total d (c ∷ s) e = elim (Bool-cases (c == b'T')) [
    | inl b ↦
        subst (λ x. Reads floats in_time total (x ∷ s) d) (sym ((==_iff c b'T').0 b))
          (reads_mark (duration_loop-Reads fuel true total d s (rw b at e)))
    | inr b ↦
        subst (λ t. Reads floats in_time total t d) (span_number-append (c ∷ s))
          (amount_step-Reads (duration_loop floats fuel in_time) in_time total d
            (span_number (c ∷ s)).0 (span_number (c ∷ s)).1
            (λ total' t k. duration_loop-Reads fuel in_time total' d t k) (span_number-All (c ∷ s))
            (rw b at e))
  ]

  amount_step-amount :
      (next : Duration → Bytes → Option Parsed) (in_time : Bool) (total : Duration) (c : ℕ)
      (num s : Bytes) (unit n : ℕ) (f : F)
      → floats.parse_float (c ∷ num) ≡ some f
      → scale_of in_time unit ≡ scale n
      → amount_step floats next in_time total (c ∷ num) (unit ∷ s)
        ≡ next (wrap_int64 (total +ℤ floats.scaled f (pos n))) s
  unfolding amount_step
  amount_step-amount next in_time total c num s unit n f e k = rw (e, amount_step, k) refl

  pub Reads-duration_loop :
      (fuel : ℕ) {in_time : Bool} {total d : Duration} {s : Bytes}
      → Reads floats in_time total s d
      → length s < fuel
      → duration_loop floats fuel in_time total s ≡ some (ok d)
  unfolding duration_loop
  Reads-duration_loop zero r h = absurd (omega arith)
  Reads-duration_loop (suc fuel) reads_end h = refl
  Reads-duration_loop (suc fuel) (reads_mark r) h = Reads-duration_loop fuel r (omega arith)
  Reads-duration_loop (suc fuel) {in_time} {total}
        (reads_amount {s = s} c num unit n f (b, a) e k r) h =
      rw
        (
          number_byte-mark c (IsNumberByte-is_number_byte c b),
          span_number_stops (c ∷ num) unit s (b, a)
              (scale_of_byte in_time unit n (IsUnit-scale_of k)),
        )
        (amount_step-amount (duration_loop floats fuel in_time) in_time total c num s unit n f e
            (IsUnit-scale_of k)
          ∙ Reads-duration_loop fuel r (let l = length-append num (unit ∷ s) in omega arith))
