-- ===== src/Store/Truncate/Bounds.antt =====
-- Truncated texts are within their caps, and cut between runes.
use trino_log_sink.Base.{
  All, Bytes, List, [], arith, codes, decimal, false, leb_ℤ, length, length-append,
  length-decimal_mono, length-take, map, min, min_ℤ, pos, pos_part, refl, suc, take, zero, ℕ, ℤ,
  ◌++◌, ◌-◌, ◌<◌, ◌∷◌, ◌≡◌, ◌≤ℤ◌, ◌≤◌,
}
use trino_log_sink.Store.Row.{Row}
use trino_log_sink.Store.Truncate.{
  decimal, large_fields, marker, max_small_field_bytes, rune_safe_cut, small_fields, truncate,
  truncate_fields, truncate_large, truncate_small,
}

pub rune_safe_cut-le : (s : Bytes) (cut : ℕ) → rune_safe_cut s cut ≤ cut
unfolding rune_safe_cut
rune_safe_cut-le s zero = omega arith
rune_safe_cut-le s (suc cut) = ground (arith, rune_safe_cut-le s cut)

pub length-take-le : (n : ℕ) (s : Bytes) → length (take n s) ≤ n
length-take-le n s = omega (arith, length-take n s)

marker_mono : (m n : ℕ) → m ≤ n → length (marker m) ≤ length (marker n)
unfolding marker
marker_mono m n h = omega (
  arith,
  length-append (10 ∷ 0xe2 ∷ 0x80 ∷ 0xa6 ∷ codes "[truncated ") (decimal m),
  length-append (10 ∷ 0xe2 ∷ 0x80 ∷ 0xa6 ∷ codes "[truncated ") (decimal n),
  length-append (10 ∷ 0xe2 ∷ 0x80 ∷ 0xa6 ∷ codes "[truncated " ++ decimal m) (codes " bytes]"),
  length-append (10 ∷ 0xe2 ∷ 0x80 ∷ 0xa6 ∷ codes "[truncated " ++ decimal n) (codes " bytes]"),
  length-decimal_mono m n h,
)

-- A truncated text is never longer than the cap, marker included.
pub length-truncate-le : (s : Bytes) (n : ℤ) → length (truncate s n) ≤ pos_part n
unfolding truncate
length-truncate-le s n =
    let room = length (marker (length s)) in
    let cut = rune_safe_cut s (pos_part n - room) in
    ground (
      arith,
      length-take-le (rune_safe_cut s (pos_part n)) s,
      rune_safe_cut-le s (pos_part n),
      length-append (take cut s) (marker (length s - cut)),
      length-take-le cut s,
      rune_safe_cut-le s (pos_part n - room),
      marker_mono (length s - cut) (length s),
    )

-- A text within the cap is kept as it is.
pub truncate_short : (s : Bytes) (n : ℤ) → pos (length s) ≤ℤ n → truncate s n ≡ s
unfolding truncate
truncate_short s n h = ground arith

All-truncate :
    (n : ℤ) (fs : List Bytes) → All (λ s. length s ≤ pos_part n) (map (λ s. truncate s n) fs)
All-truncate n [] = tt
All-truncate n (s ∷ fs) = (length-truncate-le s n, All-truncate n fs)

large_fields-truncate :
    (n m : ℤ) (r : Row)
    → large_fields (truncate_small m (truncate_large n r))
      ≡ map (λ s. truncate s n) (large_fields r)
unfolding large_fields truncate_small truncate_large
large_fields-truncate n m r = refl

small_fields-truncate :
    (n m : ℤ) (r : Row)
    → small_fields (truncate_small m (truncate_large n r))
      ≡ map (λ s. truncate s m) (small_fields r)
unfolding small_fields truncate_small truncate_large
small_fields-truncate n m r = refl

small_cap : (n : ℕ) → min_ℤ (pos n) (pos max_small_field_bytes) ≡ pos (min n max_small_field_bytes)
small_cap n = ground arith

-- A row that `TruncateFields` returns has no large field above the cap, and no other text above the
-- smaller of the cap and 16 KiB.
pub truncate_fields_bounds :
    (r : Row) (n : ℕ)
    → 0 < n
    → All (λ s. length s ≤ n) (large_fields (truncate_fields r (pos n)))
      × All (λ s. length s ≤ min n max_small_field_bytes) (small_fields (truncate_fields r (pos n)))
unfolding truncate_fields
truncate_fields_bounds r n h =
    let m = pos (min n max_small_field_bytes) in
    let off : leb_ℤ (pos n) (pos 0) ≡ false = ground arith in
    rw (off, small_cap n, large_fields-truncate (pos n) m r, small_fields-truncate (pos n) m r)
      (All-truncate (pos n) (large_fields r), All-truncate m (small_fields r))
