-- ===== src/Client/Format.antt =====
-- internal/querycli/format.go: the numbers, durations and shortened texts of the tables.
use trino_log_sink.Base.{
  Bool, Bytes, List, Option, [], codes, concat, decimal, if◌then◌else◌, itoa, leb, leb_ℤ, length,
  ltb, negsuc, none, pos, pos_part, refl, some, suc, take, true, wrap_int64, zero, ℕ, ℤ, ◌%◌, ◌&&◌,
  ◌*◌, ◌++◌, ◌-◌, ◌/◌, ◌==◌, ◌∷◌, ◌≡◌,
}
use trino_log_sink.Event.Durations.{hour, minute, second}
use trino_log_sink.Server.Format.{commas}

-- `seconds` is "%.1fs" of the seconds of a duration. The product with a millisecond wraps.
unfoldable pub human_ms : (ℤ → Bytes) → ℤ → Bytes
unfolding decimal itoa
human_ms seconds ms =
    if leb_ℤ ms (pos 0)
    then codes "0"
    else let d = wrap_int64 (pos (pos_part ms * 1_000_000)) in
      if leb_ℤ (pos hour) d
      then decimal (pos_part d / hour)
        ++ codes "h"
        ++ decimal (pos_part d % hour / minute)
        ++ codes "m"
      else if leb_ℤ (pos minute) d
      then decimal (pos_part d / minute)
        ++ codes "m"
        ++ decimal (pos_part d % minute / second)
        ++ codes "s"
      else if leb_ℤ (pos second) d
      then seconds d
      else itoa ms ++ codes "ms"

-- The loop over the units: f is n / div. A float64 holds n / div exactly enough for the tests, which are at powers
-- of 1024 up to 2 ^ 50.
unit_loop : ℕ → ℕ → Bytes → List Bytes → ℕ × Bytes
unit_loop n div unit [] = (div, unit)
unit_loop n div unit (u ∷ us) =
    let rest = unit_loop n (1024 * div) u us in if leb (1024 * div) n then rest else (div, unit)

-- `quotient` is "%.1f" of n / div.
unfoldable pub human_bytes : (ℕ → ℕ → Bytes) → ℤ → Bytes
unfolding unit_loop decimal
human_bytes quotient n =
    if leb_ℤ n (pos 0)
    then codes "0"
    else if ltb (pos_part n) 1024
    then decimal (pos_part n) ++ codes "B"
    else let (div, unit) =
        unit_loop (pos_part n) 1024 (codes "KiB")
          (codes "MiB" ∷ codes "GiB" ∷ codes "TiB" ∷ codes "PiB" ∷ []) in
      quotient (pos_part n) div ++ unit

unfoldable pub human_bytes_ptr : (ℕ → ℕ → Bytes) → Option ℤ → Bytes
unfolding human_bytes
human_bytes_ptr quotient none = codes "-"
human_bytes_ptr quotient (some n) = human_bytes quotient n

unfoldable pub human_count : ℤ → Bytes
unfolding commas decimal
human_count (pos n) = commas true (decimal n)
human_count (negsuc n) = b'-' ∷ commas true (decimal (suc n))

unfoldable pub human_count_ptr : Option ℤ → Bytes
unfolding human_count
human_count_ptr none = codes "-"
human_count_ptr (some n) = human_count n

abbrev is_between : ℕ → ℕ → ℕ → Bool
is_between lo hi c = leb lo c && leb c hi

-- The bytes of the rune that a text starts with, 0 when they are no encoding in UTF-8.
rune_width : Bytes → ℕ
rune_width [] = 0
rune_width (a ∷ []) = if ltb a 0x80 then 1 else 0
rune_width (a ∷ b ∷ []) =
    if ltb a 0x80 then 1 else if is_between 0xc2 0xdf a && is_between 0x80 0xbf b then 2 else 0
rune_width (a ∷ b ∷ c ∷ []) =
    if ltb a 0x80
    then 1
    else if is_between 0xc2 0xdf a && is_between 0x80 0xbf b
    then 2
    else if is_between 0xe0 0xef a
        && is_between (if a == 0xe0 then 0xa0 else 0x80) (if a == 0xed then 0x9f else 0xbf) b
        && is_between 0x80 0xbf c
    then 3
    else 0
rune_width (a ∷ b ∷ c ∷ d ∷ s) =
    if ltb a 0x80
    then 1
    else if is_between 0xc2 0xdf a && is_between 0x80 0xbf b
    then 2
    else if is_between 0xe0 0xef a
        && is_between (if a == 0xe0 then 0xa0 else 0x80) (if a == 0xed then 0x9f else 0xbf) b
        && is_between 0x80 0xbf c
    then 3
    else if is_between 0xf0 0xf4 a
        && is_between (if a == 0xf0 then 0x90 else 0x80) (if a == 0xf4 then 0x8f else 0xbf) b
        && is_between 0x80 0xbf c
        && is_between 0x80 0xbf d
    then 4
    else 0

-- U+FFFD, which stands for a byte that is no part of an encoding.
abbrev replacement : Bytes
replacement = 0xef ∷ 0xbf ∷ 0xbd ∷ []

-- The encodings of `[]rune(s)`; the bytes of a rune that was read are still to be passed over.
unfoldable pub runes_from : ℕ → Bytes → List Bytes
unfolding rune_width
runes_from skip [] = []
runes_from (suc skip) (c ∷ s) = runes_from skip s
runes_from zero (c ∷ s) = elim (rune_width (c ∷ s)) [
  | zero ↦ replacement ∷ runes_from 0 s
  | suc k ↦ (c ∷ take k s) ∷ runes_from k s
]

-- `trunc`, with an n below 0 as 0; the ellipsis is U+2026.
unfoldable pub trunc : Bytes → ℕ → Bytes
unfolding runes_from
trunc s n =
    let r = runes_from 0 s in
    if leb (length r) n
    then s
    else if n == 0
    then []
    else if n == 1
    then concat (take 1 r)
    else concat (take (n - 1) r) ++ 0xe2 ∷ 0x80 ∷ 0xa6 ∷ []

trunc_example : trunc (codes "abcdef") 3 ≡ codes "ab" ++ 0xe2 ∷ 0x80 ∷ 0xa6 ∷ []
unfolding trunc
trunc_example = refl

-- A rune of two bytes, and a byte that is none.
runes_example :
    runes_from 0 (0xc3 ∷ 0xa4 ∷ 0xff ∷ 97 ∷ [])
    ≡ (0xc3 ∷ 0xa4 ∷ []) ∷ (0xef ∷ 0xbf ∷ 0xbd ∷ []) ∷ (97 ∷ []) ∷ []
unfolding runes_from
runes_example = refl

human_ms_example : human_ms (λ d. []) (pos 5_430_000) ≡ codes "1h30m"
unfolding human_ms wrap_int64
human_ms_example = refl

human_bytes_example : human_bytes (λ n div. itoa (pos (n / div))) (pos 3_500_000) ≡ codes "3MiB"
unfolding human_bytes itoa
human_bytes_example = refl
