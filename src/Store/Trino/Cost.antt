-- ===== src/Store/Trino/Cost.antt =====
-- The estimate of a row as a sum over its texts, and what a truncation takes off it.
use trino_log_sink.Base.{
  All, Bytes, IsDigit, List, Option, [], arith, codes, count_byte, decimal, decimal-IsDigit, length,
  none, pos, pos_part, refl, some, suc, take, zero, ℕ, ℤ, ◌*◌, ◌++◌, ◌+◌, ◌-◌, ◌∷◌, ◌≡◌, ◌≤◌,
}
use trino_log_sink.Store.Row.{Row}
use trino_log_sink.Store.Chunk.{
  null_arg_bytes, numeric_arg_bytes, string_arg_overhead, timestamp_arg_bytes,
}
use trino_log_sink.Store.Truncate.{marker, rune_safe_cut, string_fields, truncate}
use trino_log_sink.Store.Truncate.Bounds.{length-truncate-le}
use trino_log_sink.Store.Trino.Clamp.{estimate_row_bytes}

-- What a text adds to an estimate, but for the constant overhead.
unfoldable pub cost : Bytes → ℕ
cost s = length s + count_byte b'\'' s

unfoldable pub costs : List Bytes → ℕ
costs [] = 0
costs (f ∷ fs) = cost f + costs fs

-- The part of the estimate that no text changes.
abbrev pub time_bytes : Option ℤ → ℕ
time_bytes none = null_arg_bytes
time_bytes (some t) = timestamp_arg_bytes

abbrev pub fixed_bytes : Row → ℕ
fixed_bytes r =
    2
    + 21 * string_arg_overhead
    + timestamp_arg_bytes
    + 17 * numeric_arg_bytes
    + time_bytes r.execution_start_time
    + time_bytes r.end_time

pub estimate-costs :
    (placeholder : ℕ) (r : Row)
    → estimate_row_bytes placeholder r ≡ placeholder + fixed_bytes r + costs (string_fields r)
unfolding estimate_row_bytes costs cost string_fields
estimate-costs placeholder r = ground arith

count_byte-append : (c : ℕ) (x y : Bytes) → count_byte c (x ++ y) ≡ count_byte c x + count_byte c y
unfolding count_byte
count_byte-append c [] y = omega arith
count_byte-append c (b ∷ x) y = ground (arith, count_byte-append c x y)

count_byte-take : (c n : ℕ) (s : Bytes) → count_byte c (take n s) ≤ count_byte c s
unfolding count_byte
count_byte-take c zero s = omega arith
count_byte-take c (suc n) [] = omega arith
count_byte-take c (suc n) (b ∷ s) = ground (arith, count_byte-take c n s)

count_byte-IsDigit : (s : Bytes) → All IsDigit s → count_byte b'\'' s ≡ 0
unfolding count_byte
count_byte-IsDigit [] h = refl
count_byte-IsDigit (b ∷ s) h = ground (arith, count_byte-IsDigit s)

count_byte-marker : (n : ℕ) → count_byte b'\'' (marker n) ≡ 0
unfolding marker count_byte
count_byte-marker n = omega (
  arith,
  count_byte-append b'\'' (10 ∷ 0xe2 ∷ 0x80 ∷ 0xa6 ∷ codes "[truncated ") (decimal n),
  count_byte-append b'\'' (10 ∷ 0xe2 ∷ 0x80 ∷ 0xa6 ∷ codes "[truncated " ++ decimal n)
      (codes " bytes]"),
  count_byte-IsDigit (decimal n) (decimal-IsDigit n),
)

count_byte-nil : (c : ℕ) → count_byte c [] ≡ 0
unfolding count_byte
count_byte-nil c = refl

count_byte-truncate : (s : Bytes) (n : ℤ) → count_byte b'\'' (truncate s n) ≤ count_byte b'\'' s
unfolding truncate
count_byte-truncate s n =
    let room = length (marker (length s)) in
    let cut = rune_safe_cut s (pos_part n - room) in
    ground (
      arith,
      count_byte-take b'\'' (rune_safe_cut s (pos_part n)) s,
      count_byte-take b'\'' cut s,
      count_byte-nil b'\'',
      count_byte-append b'\'' (take cut s) (marker (length s - cut)),
      count_byte-marker (length s - cut),
    )

-- A truncation takes off at least what the cap lies below the length.
pub cost-truncate :
    (s : Bytes) (n : ℕ) → n ≤ length s → cost (truncate s (pos n)) + (length s - n) ≤ cost s
unfolding cost
cost-truncate s n h = omega (arith, count_byte-truncate s (pos n), length-truncate-le s (pos n))
