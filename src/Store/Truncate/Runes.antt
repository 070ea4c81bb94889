-- ===== src/Store/Truncate/Runes.antt =====
-- A cut of `runeSafeCut` never falls inside a UTF-8 sequence.
use native.Mathlib.Decide.{dec_le}
use native.Mathlib.Nat.{zero-add}
use trino_log_sink.Base.{
  All, Bytes, [], ap, arith, false, length, refl, suc, true, zero, ℕ, ◌++◌, ◌+◌, ◌<◌, ◌∷◌, ◌≡◌, ◌≤◌,
  List, concat, length-append, take, take-append_all, ◌-◌,
}
use trino_log_sink.Store.Truncate.{byte_at, rune_safe_cut, rune_start}

-- Bytes that `utf8.RuneStart` refuses.
abbrev pub Continues : Bytes → Type 0
Continues = All (λ b. rune_start b ≡ false)

-- The encoding of one rune, as far as `utf8.RuneStart` tells: a first byte and continuation bytes.
abbrev pub IsRune : Bytes → Type 0
IsRune [] = ⊥
IsRune (b ∷ bs) = (rune_start b ≡ true) × Continues bs

byte_at-append : (x y : Bytes) (i : ℕ) → byte_at (x ++ y) (length x + i) ≡ byte_at y i
unfolding byte_at
byte_at-append [] y i = simp zero-add
byte_at-append (b ∷ x) y i =
    let e : suc (length x) + i ≡ suc (length x + i) = omega arith in rw e (byte_at-append x y i)

byte_at-Continues :
    (x y : Bytes) (i : ℕ) → Continues x → i < length x → rune_start (byte_at (x ++ y) i) ≡ false
unfolding byte_at
byte_at-Continues [] y i h k = absurd (omega arith)
byte_at-Continues (b ∷ x) y zero h k = h.0
byte_at-Continues (b ∷ x) y (suc i) h k = byte_at-Continues x y i h.1 (omega arith)

-- A cut inside the first rune falls back to the start.
cut_first :
    (b : ℕ) (bs y : Bytes) (cut : ℕ)
    → Continues bs
    → cut ≤ length bs
    → rune_safe_cut ((b ∷ bs) ++ y) cut ≡ 0
unfolding rune_safe_cut
cut_first b bs y zero h k = refl
cut_first b bs y (suc cut) h k =
    rw (byte_at-Continues bs y cut h (omega arith)) (cut_first b bs y cut h (omega arith))

-- A cut behind a rune is a cut of what follows it.
cut_later :
    (x y : Bytes) (cut : ℕ)
    → 0 < length x
    → rune_start (byte_at y 0) ≡ true
    → rune_safe_cut (x ++ y) (length x + cut) ≡ length x + rune_safe_cut y cut
unfolding rune_safe_cut
cut_later [] y cut p h = absurd (omega arith)
cut_later (b ∷ x) y zero p h =
    let e : suc (length x) + 0 ≡ suc (length x + 0) = omega arith in
    rw (e, byte_at-append x y 0, h) refl
cut_later (b ∷ x) y (suc cut) p h =
    let e : suc (length x) + suc cut ≡ suc (length x + suc cut) = omega arith in
    let d : length x + suc cut ≡ suc (length x) + cut = omega arith in
    rw e (
      ground (
        arith,
        byte_at-append x y (suc cut),
        ap (rune_safe_cut ((b ∷ x) ++ y)) d,
        cut_later (b ∷ x) y cut p h,
      ))

first_start :
    (runes : List Bytes)
    → All IsRune runes
    → 0 < length (concat runes)
    → rune_start (byte_at (concat runes) 0) ≡ true
unfolding byte_at
first_start [] h p = absurd (omega arith)
first_start ([] ∷ runes) h p = absurd h.0
first_start ((b ∷ bs) ∷ runes) h p = h.0.0

take-append : (x y : Bytes) (n : ℕ) → take (length x + n) (x ++ y) ≡ x ++ take n y
take-append x y n = take-append_all x y n

-- In a text of whole runes, the prefix that a cut inside the text leaves is made of whole runes.
pub rune_safe_cut-concat :
    (runes : List Bytes) (cut : ℕ)
    → All IsRune runes
    → cut < length (concat runes)
    → (k : ℕ) × (take (rune_safe_cut (concat runes) cut) (concat runes) ≡ concat (take k runes))
unfolding rune_safe_cut
rune_safe_cut-concat [] cut h p = absurd (omega arith)
rune_safe_cut-concat ([] ∷ runes) cut h p = absurd h.0
rune_safe_cut-concat ((b ∷ bs) ∷ runes) cut h p = elim (dec_le cut (length bs)) [
  | yes q ↦ (0, rw (cut_first b bs (concat runes) cut h.0.1 q) refl)
  | no q ↦
      let rest = cut - length (b ∷ bs) in
      let room : rest < length (concat runes) =
        omega (arith, length-append (b ∷ bs) (concat runes)) in
      let e : cut ≡ length (b ∷ bs) + rest = omega arith in
      let (k, ih) = rune_safe_cut-concat runes rest h.1 room in
      (
        suc k,
        rw
            (
              e,
              cut_later (b ∷ bs) (concat runes) rest (omega arith)
                  (first_start runes h.1 (omega arith)),
            )
            (rw take-append (ap (◌++◌ (b ∷ bs)) ih)),
      )
]
