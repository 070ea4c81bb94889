-- ===== src/Store/Trino/Fits.antt =====
-- `clampRow` brings every row within the budget, and its iteration cap is never what ends it.
use native.Mathlib.Decide.{dec_le}
use trino_log_sink.Base.{
  All, Bytes, List, Option-cases, [], ap, arith, inl, inr, is_empty, length, le→leb, none, pos,
  refl, set, suc, zero, ℕ, ◌+◌, ◌-◌, ◌/◌, ◌<◌, ◌∙◌, ◌∷◌, ◌≡◌, ◌≢◌, ◌≤◌, ◌⊎◌, lt→not-leb, replicate,
}
use trino_log_sink.Store.Row.{Row}
use trino_log_sink.Store.Truncate.Bounds.{length-truncate-le}
use trino_log_sink.Store.Trino.Cost.{cost-truncate, costs, estimate-costs, fixed_bytes}
use trino_log_sink.Store.Row.{Row}
use trino_log_sink.Store.Truncate.{string_fields, truncate}
use trino_log_sink.Store.Truncate.Bounds.{length-truncate-le}
use trino_log_sink.Store.Trino.Clamp.{
  clamp_loop, estimate_row_bytes, largest, shrink, shrink_target, with_string_fields,
  clamp_max_iterations, clamp_row,
}
use trino_log_sink.Store.Trino.Largest.{
  At, Bounded, Bounded-zero, costs-set, costs_empty, length-set, lower, lower-Bounded,
  string_fields-with_string_fields, sum, largest-IsLargest,
}

-- What the texts leave of the budget: an estimate without them is at most so much.
fixed_bytes-le : (r : Row) → fixed_bytes r ≤ 686
fixed_bytes-le r = ground arith

module _ (placeholder budget : ℕ) where
  -- A row within the budget is not changed.
  pub clamp_loop_fitting :
      (left : ℕ) (r : Row) (est : ℕ) → est ≤ budget → clamp_loop placeholder budget left r est ≡ r
  unfolding clamp_loop
  clamp_loop_fitting zero r est h = refl
  clamp_loop_fitting (suc left) r est h = rw (le→leb est budget h)

  shrink_target-le : (len est b : ℕ) → shrink_target len est b ≤ len
  unfolding shrink_target
  shrink_target-le len est b = omega arith

  fixed_bytes-with_string_fields :
      (r : Row) (fs : List Bytes) → fixed_bytes (with_string_fields r fs) ≡ fixed_bytes r
  unfolding with_string_fields
  fixed_bytes-with_string_fields r fs = refl

  length-string_fields : (r : Row) → length (string_fields r) ≡ 21
  unfolding string_fields
  length-string_fields r = refl

  string_fields-shrink :
      (r : Row) (est i : ℕ) (f : Bytes)
      → string_fields (shrink placeholder budget r est i f)
        ≡ set (string_fields r) i (truncate f (pos (shrink_target (length f) est budget)))
  unfolding shrink
  string_fields-shrink r est i f =
      string_fields-with_string_fields r _
        (length-set (string_fields r) i _ ∙ length-string_fields r)

  -- What one round does to the estimate, for a text in its place.
  shrink-estimate :
      (r : Row) (est i : ℕ) (f : Bytes)
      → est ≡ estimate_row_bytes placeholder r
      → budget < est
      → 0 < length f
      → At i f (string_fields r)
      → estimate_row_bytes placeholder (shrink placeholder budget r est i f)
          + (length f - shrink_target (length f) est budget)
        ≤ est
  unfolding shrink
  shrink-estimate r est i f e over p h =
      let t = shrink_target (length f) est budget in
      let fs = set (string_fields r) i (truncate f (pos t)) in
      omega (
        arith,
        estimate-costs placeholder r,
        estimate-costs placeholder (with_string_fields r fs),
        fixed_bytes-with_string_fields r fs,
        ap costs (string_fields-shrink r est i f),
        costs-set (string_fields r) i f (truncate f (pos t)) h,
        cost-truncate f t (shrink_target-le (length f) est budget),
      )

  estimate_empty :
      (r : Row)
      → placeholder + 686 ≤ budget
      → All (λ g. length g ≤ 0) (string_fields r)
      → estimate_row_bytes placeholder r ≤ budget
  estimate_empty r room h =
      omega (arith, estimate-costs placeholder r, costs_empty (string_fields r) h, fixed_bytes-le r)

  largest-some : (r : Row) → largest (string_fields r) ≢ none
  unfolding largest string_fields
  largest-some r h = cc

  -- One round from an estimate above the budget, for the text that it shrinks: the estimate falls, and
  -- either the row fits or the text is at most half as long.
  shrink_progress :
      (r : Row) (est i : ℕ) (f : Bytes)
      → est ≡ estimate_row_bytes placeholder r
      → budget < est
      → 0 < length f
      → At i f (string_fields r)
      → (estimate_row_bytes placeholder (shrink placeholder budget r est i f) < est)
        × ((estimate_row_bytes placeholder (shrink placeholder budget r est i f) ≤ budget)
            ⊎ (length (truncate f (pos (shrink_target (length f) est budget))) ≤ length f / 2))
  unfolding shrink_target
  shrink_progress r est i f e over p h =
      let t = shrink_target (length f) est budget in
      let fact = shrink-estimate r est i f e over p h in
      (
        omega (arith, fact),
        elim (dec_le (est - budget) (length f - length f / 2)) [
          | yes q ↦ inl (omega (arith, fact))
          | no q ↦ inr (omega (arith, length-truncate-le f (pos t)))
        ],
      )

  -- The loop after a round that shrank the text, whatever the loop does from there with lower exponents.
  round_fits :
      (left : ℕ) (r : Row) (est : ℕ) (ks : List ℕ) (i : ℕ) (f : Bytes)
      → est ≡ estimate_row_bytes placeholder r
      → budget < est
      → 0 < length f
      → At i f (string_fields r)
      → Bounded (string_fields r) ks
      → sum ks ≤ suc left
      → ((ls : List ℕ)
          → Bounded (string_fields (shrink placeholder budget r est i f)) ls
          → sum ls ≤ left
          → estimate_row_bytes placeholder (
              clamp_loop placeholder budget left
                (shrink placeholder budget r est i f)
                (estimate_row_bytes placeholder (shrink placeholder budget r est i f)))
            ≤ budget)
      → estimate_row_bytes placeholder (
          clamp_loop placeholder budget left
            (shrink placeholder budget r est i f)
            (estimate_row_bytes placeholder (shrink placeholder budget r est i f)))
        ≤ budget
  round_fits left r est ks i f e over p h b le again =
      let r' = shrink placeholder budget r est i f in
      elim (shrink_progress r est i f e over p h).1 [
        | inl fits ↦ rw (clamp_loop_fitting left r' (estimate_row_bytes placeholder r') fits) fits
        | inr halved ↦
            let (bs, less) = lower-Bounded (string_fields r) ks i f _ b h p halved in
            again (lower i ks) (rw (string_fields-shrink r est i f) bs) (omega arith)
      ]

  clamp_loop_fits :
      (left : ℕ) (r : Row) (est : ℕ) (ks : List ℕ)
      → est ≡ estimate_row_bytes placeholder r
      → placeholder + 686 ≤ budget
      → Bounded (string_fields r) ks
      → sum ks ≤ left
      → estimate_row_bytes placeholder (clamp_loop placeholder budget left r est) ≤ budget
  unfolding clamp_loop is_empty
  clamp_loop_fits zero r est ks e room b h =
      estimate_empty r room (Bounded-zero (string_fields r) ks b h)
  clamp_loop_fits (suc left) r est ks e room b h = elim (dec_le est budget) [
    | yes q ↦ rw (clamp_loop_fitting (suc left) r est q) (rw e at q)
    | no q ↦ elim (Option-cases (largest (string_fields r))) [
      | inl none_left ↦ absurd (largest-some r none_left)
      | inr ((i, []), found) ↦
          rw (lt→not-leb est budget (omega arith), found)
            (estimate_empty r room (largest-IsLargest (string_fields r) (i, []) found).1)
      | inr ((i, c ∷ f), found) ↦
          let at = (largest-IsLargest (string_fields r) (i, c ∷ f) found).0 in
          let less = (shrink_progress r est i (c ∷ f) e (omega arith) (omega arith) at).0 in
          rw (lt→not-leb est budget (omega arith), found, lt→not-leb est _ less)
            (round_fits left r est ks i (c ∷ f) e (omega arith) (omega arith) at b h (λ ls bs le.
              clamp_loop_fits left (shrink placeholder budget r est i (c ∷ f)) _ ls refl room bs
                le))
    ]
  ]

-- The texts of a row are shorter than 2 ^ 47 bytes.
abbrev pub IsAddressable : Row → Type 0
IsAddressable r = Bounded (string_fields r) (replicate 21 47)

-- A row whose texts are shorter than 2 ^ 47 bytes is clamped to an estimate within the budget, if the
-- budget has room for the placeholder and 686 bytes, which the values that are no text can take.
pub clamp_row_fits :
    (placeholder budget : ℕ) (r : Row)
    → placeholder + 686 ≤ budget
    → IsAddressable r
    → estimate_row_bytes placeholder (clamp_row placeholder budget r) ≤ budget
unfolding clamp_row sum
clamp_row_fits placeholder budget r room b =
    clamp_loop_fits placeholder budget clamp_max_iterations r _ (replicate 21 47) refl room b
      (omega arith)

-- A row within the budget is not changed.
pub clamp_row_fitting :
    (placeholder budget : ℕ) (r : Row)
    → estimate_row_bytes placeholder r ≤ budget
    → clamp_row placeholder budget r ≡ r
unfolding clamp_row
clamp_row_fitting placeholder budget r h = clamp_loop_fitting placeholder budget _ r _ h
