-- ===== src/Client/Plan.antt =====
-- internal/querycli/plan.go: the operators of a plan that took the most CPU time. The regular expressions,
-- the reading of a percentage and the order of percentages are arguments.
pub mod Ranked
use trino_log_sink.Base.{
  Bool, Bytes, List, Option, [], codes, digits, if◌then◌else◌, length, ltb, map, min, negsuc, none,
  not, pos, some, take, ℕ, ℤ, ◌&&◌, ◌++◌, ◌==◌, ◌∷◌,
}
use trino_log_sink.Client.Format.{human_count, trunc}
use trino_log_sink.Server.Format.{one_line}

pub record Hotspot (F : Type 0) : Type 0 where
  pub operator : Bytes
  pub cpu_pct : F
  pub cpu : Bytes
  pub rows : ℤ

-- What `FindStringSubmatch` gives for the groups of the four expressions, the value that `strconv.ParseFloat`
-- gives, and `>` on floats.
pub record Matches (F : Type 0) : Type 0 where
  pub op_branch : Bytes → Option Bytes
  pub op_top : Bytes → Option Bytes
  pub cpu_pct : Bytes → Option (Bytes × Bytes)
  pub rows : Bytes → Option Bytes
  pub parse_float : Bytes → F
  pub gt : F → F → Bool

-- `strings.SplitSeq(s, "\n")`.
unfoldable pub split_lines : Bytes → Bytes → List Bytes
split_lines [] line = line ∷ []
split_lines (c ∷ s) line =
    if c == 10 then line ∷ split_lines s [] else split_lines s (line ++ c ∷ [])

unfoldable pub op_name : Bytes → Bytes
unfolding trunc one_line
op_name s = trunc (one_line s) 60

unfoldable pub without_commas : Bytes → Bytes
without_commas [] = []
without_commas (c ∷ s) = let rest = without_commas s in if c == b',' then rest else c ∷ rest

-- The value of `strconv.ParseInt(s, 10, 64)` for a text of digits: 0 for the empty text, and the greatest int64 for
-- a number above it.
parsed_int : Option ℕ → ℤ
parsed_int none = pos 0
parsed_int (some n) = pos (min n 9_223_372_036_854_775_807)

unfoldable pub parse_comma_int : Bytes → ℤ
unfolding without_commas digits parsed_int
parse_comma_int s = parsed_int (digits (without_commas s))

module _ {F : Type 0} (m : Matches F) where
  rows_of : Option Bytes → ℤ
  unfolding parse_comma_int
  rows_of none = pos 0
  rows_of (some s) = parse_comma_int s

  -- The branches of a round: the last operator, and the hotspot that the line gives.
  unfoldable pub line_step : Bytes → Bytes → Bytes × List (Hotspot F)
  unfolding op_name one_line rows_of
  line_step last_op ln = elim (m.op_branch ln) [
    | some op ↦ (op_name op, [])
    | none ↦ elim (m.op_top ln) [
      | some op ↦ (op_name op, [])
      | none ↦ elim (m.cpu_pct ln) [
        | none ↦ (last_op, [])
        | some (cpu, pct) ↦ (
          last_op,
          record {
            operator = last_op;
            cpu_pct = m.parse_float pct;
            cpu = one_line cpu;
            rows = rows_of (m.rows ln);
          }
              ∷ [],
        )
      ]
    ]
  ]

  unfoldable pub hotspots_loop : Bytes → List Bytes → List (Hotspot F)
  unfolding line_step
  hotspots_loop last_op [] = []
  hotspots_loop last_op (ln ∷ lns) =
      let (op, found) = line_step last_op ln in found ++ hotspots_loop op lns

  -- `sort.SliceStable` with a greater percentage first.
  unfoldable pub insert : Hotspot F → List (Hotspot F) → List (Hotspot F)
  insert h [] = h ∷ []
  insert h (x ∷ xs) =
      let rest = insert h xs in if m.gt h.cpu_pct x.cpu_pct then h ∷ x ∷ xs else x ∷ rest

  unfoldable pub sort_stable : List (Hotspot F) → List (Hotspot F) → List (Hotspot F)
  unfolding insert
  sort_stable [] out = out
  sort_stable (h ∷ hs) out = sort_stable hs (insert h out)

  unfoldable pub parse_hotspots : Bytes → List (Hotspot F)
  unfolding hotspots_loop split_lines sort_stable
  parse_hotspots plan = sort_stable (hotspots_loop [] (split_lines plan [])) []

  -- The hotspots of `--top`: all of them for 0 and below.
  unfoldable pub top_hotspots : ℤ → List (Hotspot F) → List (Hotspot F)
  top_hotspots (pos n) hs = if ltb 0 n && ltb n (length hs) then take n hs else hs
  top_hotspots (negsuc n) hs = hs

  -- `printHotspots`; `align` is the tabwriter, and `percent` is "%.1f%%".
  unfoldable pub print_hotspots :
      (List (List Bytes) → Bytes) → (F → Bytes) → List (Hotspot F) → Bytes
  unfolding human_count
  print_hotspots align percent [] =
      codes "no per-operator CPU stats found in plan (the query may not have executed)\n"
  print_hotspots align percent (h ∷ hs) =
      align (
        (codes "CPU%" ∷ codes "CPU" ∷ codes "ROWS" ∷ codes "OPERATOR" ∷ [])
        ∷ map (λ x. percent x.cpu_pct ∷ x.cpu ∷ human_count x.rows ∷ x.operator ∷ []) (h ∷ hs))
      ++ codes "\n(use --raw for the full text plan)\n"
