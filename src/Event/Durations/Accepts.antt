-- ===== src/Event/Durations/Accepts.antt =====
-- internal/event/duration.go: the parser ends, and accepts the durations of Event/Durations/Grammar and no other text.
use mathlib.Core.Path.{subst}
use trino_log_sink.Base.{
  ==_iff, Bool, Bool-cases, Bytes, Option, [], ap, arith, false, if_intro, if◌then◌else◌, inl, inr,
  length, none, pos, refl, some, suc, sym, true, wrap_int64, ◌-ℤ◌, ◌==◌, ◌↔◌, ◌∙◌, ◌∷◌, ◌≡◌, ◌⊎◌,
}
use trino_log_sink.Event.{Duration}
use trino_log_sink.Event.Durations.{
  DurationError, Floats, Parsed, duration_loop, failed, negated, ok, parse_duration, parse_unsigned,
}
use trino_log_sink.Event.Durations.Grammar.{IsDuration, Reads, empty, minus, plus, unsigned}
use trino_log_sink.Event.Durations.Loop.{
  HasEnded, Reads-duration_loop, duration_loop-Reads, duration_loop_ends,
}

module _ {F : Type 0} (floats : Floats F) where
  abbrev signed : Bool → Duration → Duration
  signed neg d = if neg then wrap_int64 (pos 0 -ℤ d) else d

  Parsed-cases :
      (o : Option Parsed)
      → (o ≡ none)
        ⊎ (((d : Duration) × (o ≡ some (ok d))) ⊎ ((e : DurationError) × (o ≡ some (failed e))))
  Parsed-cases none = inl refl
  Parsed-cases (some (ok d)) = inr (inl (d, refl))
  Parsed-cases (some (failed e)) = inr (inr (e, refl))

  negated_ends : (neg : Bool) (o : Option Parsed) → HasEnded o → HasEnded (negated neg o)
  unfolding negated
  negated_ends neg none (r, e) = cc
  negated_ends neg (some (ok d)) h = (_, refl)
  negated_ends neg (some (failed x)) h = (_, refl)

  negated_ok :
      (neg : Bool) (o : Option Parsed) (d : Duration)
      → negated neg o ≡ some (ok d)
      → (x : Duration) × (o ≡ some (ok x)) × (signed neg x ≡ d)
  unfolding negated
  negated_ok neg none d h = cc
  negated_ok neg (some (failed e)) d h = cc
  negated_ok neg (some (ok x)) d h = (x, refl, cc)

  abbrev ReadsSigned : Bool → Bytes → Duration → Type 0
  ReadsSigned neg s d =
      (t : Bytes) × (x : Duration) × (s ≡ b'P' ∷ t)
      × Reads floats false (pos 0) t x
      × (signed neg x ≡ d)

  parse_unsigned_ends : (neg : Bool) (s : Bytes) → HasEnded (parse_unsigned floats neg s)
  unfolding parse_unsigned
  parse_unsigned_ends neg [] = (_, refl)
  parse_unsigned_ends neg (c ∷ s) =
      if_intro HasEnded (c == b'P')
        (negated_ends neg (duration_loop floats (suc (length s)) false (pos 0) s)
          (duration_loop_ends floats (suc (length s)) false (pos 0) s (omega arith)))
        (_, refl)

  parse_unsigned-Reads :
      (neg : Bool) (s : Bytes) (d : Duration)
      → parse_unsigned floats neg s ≡ some (ok d)
      → ReadsSigned neg s d
  unfolding parse_unsigned
  parse_unsigned-Reads neg [] d h = cc
  parse_unsigned-Reads neg (c ∷ s) d h = elim (Bool-cases (c == b'P')) [
    | inl b ↦
        let (x, e, k) = negated_ok neg _ d (rw b at h) in
        (
          s,
          x,
          ap (λ y. y ∷ s) ((==_iff c b'P').0 b),
          duration_loop-Reads floats (suc (length s)) false (pos 0) x s e,
          k,
        )
    | inr b ↦ let h' = rw b at h in cc
  ]

  Reads-parse_unsigned :
      (neg : Bool) {s : Bytes} {x : Duration}
      → Reads floats false (pos 0) s x
      → parse_unsigned floats neg (b'P' ∷ s) ≡ some (ok (signed neg x))
  unfolding parse_unsigned negated
  Reads-parse_unsigned neg {s} r =
      rw (Reads-duration_loop floats (suc (length s)) r (omega arith), negated) refl

  parse_duration_ends : (s : Bytes) → HasEnded (parse_duration floats s)
  unfolding parse_duration
  parse_duration_ends [] = (_, refl)
  parse_duration_ends (c ∷ s) = if_intro HasEnded (c == b'-') (parse_unsigned_ends true s) (
      if_intro HasEnded (c == b'+') (parse_unsigned_ends false s)
        (parse_unsigned_ends false (c ∷ s)))

  pub IsDuration-parse_duration :
      {s : Bytes} {d : Duration} → IsDuration floats s d → parse_duration floats s ≡ some (ok d)
  unfolding parse_duration
  IsDuration-parse_duration empty = refl
  IsDuration-parse_duration (unsigned r) = Reads-parse_unsigned false r
  IsDuration-parse_duration (plus r) = Reads-parse_unsigned false r
  IsDuration-parse_duration (minus r) = Reads-parse_unsigned true r

  parse_duration-IsDuration :
      (s : Bytes) (d : Duration) → parse_duration floats s ≡ some (ok d) → IsDuration floats s d
  unfolding parse_duration
  parse_duration-IsDuration [] d h = let q : pos 0 ≡ d = cc in subst (IsDuration floats []) q empty
  parse_duration-IsDuration (c ∷ s) d h = elim (Bool-cases (c == b'-')) [
    | inl b ↦
        let (t, x, e, r, k) = parse_unsigned-Reads true s d (rw b at h) in
        rw ((==_iff c b'-').0 b, e) (subst (IsDuration floats (b'-' ∷ b'P' ∷ t)) k (minus r))
    | inr b ↦ elim (Bool-cases (c == b'+')) [
      | inl b' ↦
          let (t, x, e, r, k) = parse_unsigned-Reads false s d (rw (b, b') at h) in
          rw ((==_iff c b'+').0 b', e) (subst (IsDuration floats (b'+' ∷ b'P' ∷ t)) k (plus r))
      | inr b' ↦
          let (t, x, e, r, k) = parse_unsigned-Reads false (c ∷ s) d (rw (b, b') at h) in
          rw e (subst (IsDuration floats (b'P' ∷ t)) k (unsigned r))
    ]
  ]

  -- The parser ends for every text, and gives a duration exactly for the texts of the grammar, the one that the
  -- grammar gives, whatever the floating-point arithmetic does.
  pub parse_duration-accepts :
      (s : Bytes)
      → (r : Parsed) × (parse_duration floats s ≡ some r)
        × ((d : Duration) → (r ≡ ok d) ↔ IsDuration floats s d)
  parse_duration-accepts s =
      let (r, e) = parse_duration_ends s in
      (
        r,
        e,
        λ d. (
          λ h. parse_duration-IsDuration s d (e ∙ ap some h),
          λ h. let k : some r ≡ some (ok d) = sym e ∙ IsDuration-parse_duration h in cc,
        ),
      )
