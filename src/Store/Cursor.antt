-- ===== src/Store/Cursor.antt =====
-- internal/store/trino.go and clickhouse.go: the loops over the rows of a query. What the driver gives is
-- the sequence of its answers to `Next` and `Scan`, the error of `Err`, and that of `Close`.
pub mod Complete
use trino_log_sink.Base.{Bytes, List, Option, [], codes, map, none, some, ◌++◌, ◌∷◌}
use trino_log_sink.Store.Errors.{Error, wrapped}

-- A value, or an error.
pub data Result {ℓ} (A : Type ℓ) : Type ℓ where
  ok : A → Result A
  failed : Error → Result A

-- `rows`, whose `Next` is true as often as there are scans.
pub record Rows (A : Type 0) : Type 0 where
  pub scans : List (Result A)
  pub rows_err : Option Error
  pub close_err : Option Error

-- The two results of a Go function.
abbrev pub Pair : Type 0 → Type 0
Pair A = List A × Option Error

module _ {A : Type 0} (check : A → Option Error) where
  -- The loop of `rows.Next`, `rows.Scan`, a check of the value and `append`; an error returns nil.
  unfoldable pub scan_loop : List (Result A) → Option Error → List A → Pair A
  scan_loop [] last out = (out, last)
  scan_loop (failed e ∷ scans) last out = ([], some e)
  scan_loop (ok a ∷ scans) last out =
      let rest = scan_loop scans last (out ++ a ∷ []) in
      elim (check a) [ some e ↦ ([], some e) | none ↦ rest ]

unfoldable pub no_check {ℓ} : {A : Type ℓ} → A → Option Error
no_check a = none

unfoldable pub scan_error {ℓ} : {A : Type ℓ} → Bytes → Result A → Result A
scan_error prefix (ok a) = ok a
scan_error prefix (failed e) = failed (wrapped prefix e)

-- The loop of `ListQueries`: the error of a scan is wrapped, that of `rows.Err` is not.
unfoldable pub list_rows : {A : Type 0} → Rows A → Pair A
unfolding scan_loop scan_error no_check
list_rows rows =
    scan_loop no_check (map (scan_error (codes "scan summary: ")) rows.scans) rows.rows_err []

-- The end of `GetQuery`: the first row, nil when there is none.
unfoldable pub first_row : {A : Type 0} → Rows A → Option A × Option Error
first_row rows = elim rows.scans [
  | [] ↦ (none, rows.rows_err)
  | ok a ∷ rest ↦ (some a, none)
  | failed e ∷ rest ↦ (none, some (wrapped (codes "scan row: ") e))
]

-- `discard`: the rows are passed over; `rows.Err` goes before the error of `Close`.
unfoldable pub drained : {A : Type 0} → Rows A → Option Error
drained rows = elim rows.rows_err [ some e ↦ some e | none ↦ rows.close_err ]
