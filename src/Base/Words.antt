-- ===== src/Base/Words.antt =====
-- `strings.Fields`, `strings.TrimSpace` and `strconv.Atoi`, on the bytes of texts in UTF-8.
use Prim.Native.Nat.{ℕ, zero, suc, ◌+◌, ◌-◌, ◌*◌}
use mathlib.Core.Path.{◌≡◌, refl}
use mathlib.Core.Bool.{Bool, ◌&&◌, ◌||◌}
use mathlib.Core.Option.{Option, none, some}
use mathlib.Core.List.{List, [], ◌∷◌, ◌++◌}
use trino_log_sink.Base.Tests.{if◌then◌else◌, leb, ltb, ◌==◌}
use trino_log_sink.Base.Int.{negsuc, pos, ℤ}
use trino_log_sink.Base.Text.{Bytes, codes}

-- Tab, newline, vertical tab, form feed, return and space.
is_ascii_space : ℕ → Bool
is_ascii_space c = (leb 9 c && leb c 13) || c == 32

-- The second and third byte of the white space of three bytes: U+1680, U+2000 to U+200A, U+2028,
-- U+2029, U+202F, U+205F and U+3000.
is_wide_space : ℕ → ℕ → ℕ → Bool
is_wide_space a b c =
    (a == 0xe1 && b == 0x9a && c == 0x80)
    || (a == 0xe2 && b == 0x80 && leb 0x80 c && leb c 0x8a)
    || (a == 0xe2 && b == 0x80 && (c == 0xa8 || c == 0xa9 || c == 0xaf))
    || (a == 0xe2 && b == 0x81 && c == 0x9f)
    || (a == 0xe3 && b == 0x80 && c == 0x80)

-- U+0085 and U+00A0.
is_latin_space : ℕ → ℕ → Bool
is_latin_space a b = a == 0xc2 && (b == 0x85 || b == 0xa0)

-- The bytes of the white space that a text starts with: no byte of an incomplete sequence is part of
-- white space, and no first byte of one is a continuation byte.
space_width : Bytes → ℕ
unfolding is_ascii_space is_latin_space is_wide_space
space_width [] = 0
space_width (a ∷ []) = if is_ascii_space a then 1 else 0
space_width (a ∷ b ∷ []) = if is_ascii_space a then 1 else if is_latin_space a b then 2 else 0
space_width (a ∷ b ∷ c ∷ s) =
    if is_ascii_space a
    then 1
    else if is_latin_space a b
    then 2
    else if is_wide_space a b c
    then 3
    else 0

end_field : Bytes → List Bytes → List Bytes
end_field [] fs = fs
end_field (c ∷ cur) fs = (c ∷ cur) ∷ fs

-- The bytes of a white space that are still to be passed over, and the field that is being read.
fields_loop : Bytes → ℕ → Bytes → List Bytes
unfolding space_width end_field
fields_loop [] skip cur = end_field cur []
fields_loop (c ∷ s) (suc skip) cur = fields_loop s skip cur
fields_loop (c ∷ s) zero cur = elim (space_width (c ∷ s)) [
  | zero ↦ fields_loop s 0 (cur ++ c ∷ [])
  | suc skip ↦ end_field cur (fields_loop s skip [])
]

-- `strings.Fields`.
unfoldable pub fields : Bytes → List Bytes
unfolding fields_loop
fields s = fields_loop s 0 []

unfoldable pub is_digit : ℕ → Bool
is_digit c = leb 48 c && leb c 57

-- The number that digits denote behind a number.
unfoldable pub digits_from : ℕ → Bytes → Option ℕ
unfolding is_digit
digits_from n [] = some n
digits_from n (c ∷ s) = if is_digit c then digits_from (10 * n + (c - 48)) s else none

-- The number that a text of digits denotes, which is not empty.
unfoldable pub digits : Bytes → Option ℕ
unfolding digits_from
digits [] = none
digits (c ∷ s) = digits_from 0 (c ∷ s)

abbrev two_63 : ℕ
two_63 = 9_223_372_036_854_775_808

unfoldable pub atoi_negative : Option ℕ → Option ℤ
atoi_negative none = none
atoi_negative (some zero) = some (pos 0)
atoi_negative (some (suc n)) = if ltb n two_63 then some (negsuc n) else none

unfoldable pub atoi_positive : Option ℕ → Option ℤ
atoi_positive none = none
atoi_positive (some n) = if ltb n two_63 then some (pos n) else none

-- `strconv.Atoi`, with none for every error.
unfoldable pub atoi : Bytes → Option ℤ
unfolding digits atoi_negative atoi_positive
atoi [] = none
atoi (c ∷ s) =
    if c == b'-'
    then atoi_negative (digits s)
    else if c == b'+'
    then atoi_positive (digits s)
    else atoi_positive (digits (c ∷ s))

-- The text behind the white space that it starts with.
trim_left : Bytes → ℕ → Bytes
unfolding space_width
trim_left [] skip = []
trim_left (c ∷ s) (suc skip) = trim_left s skip
trim_left (c ∷ s) zero = elim (space_width (c ∷ s)) [ zero ↦ c ∷ s | suc skip ↦ trim_left s skip ]

-- The part of the text up to its last byte that is not white space; `kept` is that of `seen`.
trim_right : Bytes → ℕ → Bytes → Bytes → Bytes
unfolding space_width
trim_right [] skip seen kept = kept
trim_right (c ∷ s) (suc skip) seen kept = trim_right s skip (seen ++ c ∷ []) kept
trim_right (c ∷ s) zero seen kept = elim (space_width (c ∷ s)) [
  | zero ↦ trim_right s 0 (seen ++ c ∷ []) (seen ++ c ∷ [])
  | suc skip ↦ trim_right s skip (seen ++ c ∷ []) kept
]

-- `strings.TrimSpace`.
unfoldable pub trim_space : Bytes → Bytes
unfolding trim_left trim_right
trim_space s = trim_right (trim_left s 0) 0 [] []

-- An ideographic space, a tab, and a no-break space behind a word.
fields_example :
    fields (0xe3 ∷ 0x80 ∷ 0x80 ∷ codes "a b" ++ 9 ∷ codes "c" ++ 0xc2 ∷ 0xa0 ∷ [])
    ≡ codes "a" ∷ codes "b" ∷ codes "c" ∷ []
unfolding fields
fields_example = refl

trim_space_example : trim_space (32 ∷ 9 ∷ codes "a b" ++ 0xc2 ∷ 0xa0 ∷ 10 ∷ []) ≡ codes "a b"
unfolding trim_space
trim_space_example = refl

atoi_example : atoi (codes "-42") ≡ some (negsuc 41)
unfolding atoi
atoi_example = refl
