-- ===== src/Server/Format.antt =====
-- internal/server/format.go: the numbers, times and badges of the pages, and `humanCount` and `oneLine` of
-- internal/querycli/format.go. What is printed with floating point is left out.
pub mod Units
use trino_log_sink.Base.{
  Bool, Bytes, Option, [], bytes_eq, codes, decimal, false, fields, if◌then◌else◌, join, length,
  negsuc, none, not, pos, refl, some, suc, true, ℤ, ◌%◌, ◌&&◌, ◌++◌, ◌==◌, ◌||◌, ◌∷◌, ◌≡◌,
}
use trino_log_sink.Event.{Time}
use trino_log_sink.Store.Query.{is_zero}
use trino_log_sink.Store.Calendar.Civil.{clock_date}

-- A comma in front of every third digit from the end; `first` is whether no digit was written.
unfoldable pub commas : Bool → Bytes → Bytes
commas first [] = []
commas first (c ∷ s) =
    let rest = commas false s in
    if not first && suc (length s) % 3 == 0 then b',' ∷ c ∷ rest else c ∷ rest

unfoldable pub human_num : ℤ → Bytes
unfolding commas decimal
human_num (pos n) = commas true (decimal n)
human_num (negsuc n) = b'-' ∷ commas true (decimal (suc n))

-- U+2014, for a number or a time that is absent.
abbrev dash : Bytes
dash = 0xe2 ∷ 0x80 ∷ 0x94 ∷ []

unfoldable pub human_num_ptr : Option ℤ → Bytes
unfolding human_num
human_num_ptr none = dash
human_num_ptr (some n) = human_num n

unfoldable pub format_time : Time → Bytes
unfolding is_zero clock_date
format_time t = if is_zero t then dash else clock_date 32 t

unfoldable pub format_time_opt : Option Time → Bytes
unfolding format_time
format_time_opt none = dash
format_time_opt (some t) = format_time t

unfoldable pub format_start_time : Option Time → Time → Bytes
unfolding format_time
format_start_time (some start) create = format_time start
format_start_time none create = format_time create

-- `html` is `template.HTMLEscapeString`.
unfoldable pub state_badge : (Bytes → Bytes) → Bytes → Bytes
unfolding bytes_eq
state_badge html state =
    let class_name =
      if bytes_eq state (codes "FINISHED") || bytes_eq state (codes "FAILED")
      then state
      else codes "other" in
    codes "<span class=\"badge " ++ html class_name ++ codes "\">" ++ html state ++ codes "</span>"

unfoldable pub one_line : Bytes → Bytes
unfolding fields join
one_line s = join (fields s) (codes " ")

human_num_example : human_num (negsuc 1_234_566) ≡ codes "-1,234,567"
unfolding human_num
human_num_example = refl

human_num_short : human_num (pos 123) ≡ codes "123"
unfolding human_num
human_num_short = refl
