-- ===== src/Client/Printed.antt =====
-- internal/querycli/list.go and get.go: the answers of the server, and the text that is printed of them.
use trino_log_sink.Base.{
  Bool, Bytes, List, [], codes, if◌then◌else◌, is_empty, itoa, length, map, pos, ℕ, ℤ, ◌&&◌, ◌++◌,
  ◌+ℤ◌, ◌∷◌,
}
use trino_log_sink.Event.{InputMetadata}
use trino_log_sink.Store.Row.{Row}
use trino_log_sink.Store.Query.{QuerySummary}
use trino_log_sink.Server.Format.{one_line}
use trino_log_sink.Client.Format.{
  human_bytes, human_bytes_ptr, human_count, human_count_ptr, human_ms, trunc,
}

pub record ListEnvelope : Type 0 where
  pub queries : List QuerySummary
  pub count : ℤ
  pub limit : ℤ
  pub offset : ℤ
  pub has_next : Bool

pub record QueryDetail : Type 0 where
  pub row : Row
  pub inputs : List InputMetadata

-- `getProjection`.
unfoldable pub get_projection : QueryDetail → QueryDetail
get_projection d = record d { row = record d.row { plan = []; json_plan = [] } }

-- The tabwriter on its lines of cells, "%.1fs" of a duration's seconds, and "%.1f" of a quotient.
pub record Printing : Type 0 where
  pub align : List (List Bytes) → Bytes
  pub seconds : ℤ → Bytes
  pub quotient : ℕ → ℕ → Bytes

module _ (p : Printing) where
  summary_cells : QuerySummary → List Bytes
  unfolding trunc human_ms human_count
  summary_cells s =
      s.query_id
      ∷ s.query_state
      ∷ s.query_type
      ∷ trunc s.user_name 20
      ∷ human_ms p.seconds s.cpu_ms
      ∷ human_ms p.seconds s.wall_ms
      ∷ human_count s.output_rows
      ∷ []

  unfoldable pub print_list : ListEnvelope → Bytes
  unfolding summary_cells itoa
  print_list env = elim env.queries [
    | [] ↦ codes "no queries\n"
    | s ∷ ss ↦
        p.align (
          (codes "ID"
            ∷ codes "STATE"
            ∷ codes "TYPE"
            ∷ codes "USER"
            ∷ codes "CPU"
            ∷ codes "WALL"
            ∷ codes "ROWS"
            ∷ [])
          ∷ map summary_cells (s ∷ ss))
        ++ (if env.has_next
            then 10
              ∷ 0xe2
              ∷ 0x80
              ∷ 0xa6
              ∷ (codes " more results (next: --offset "
                  ++ itoa (env.offset +ℤ pos (length (s ∷ ss)))
                  ++ codes ")\n")
            else [])
  ]

  ms : ℤ → Bytes
  unfolding human_ms
  ms n = human_ms p.seconds n

  bytes : ℤ → Bytes
  unfolding human_bytes
  bytes n = human_bytes p.quotient n

  input_cells : InputMetadata → List Bytes
  unfolding human_count_ptr human_bytes_ptr
  input_cells i =
      (codes "  " ++ i.catalog_name ++ codes "." ++ i.schema ++ codes "." ++ i.table)
      ∷ human_count_ptr i.physical_input_rows
      ∷ human_bytes_ptr p.quotient i.physical_input_bytes
      ∷ []

  -- The line of the state.
  state_text : Row → Bytes
  unfolding is_empty
  state_text r =
      if is_empty r.error_code
      then r.query_state
      else r.query_state ++ codes "  (" ++ r.error_code ++ codes " / " ++ r.error_type ++ codes ")"

  summary_text : Row → Bytes
  unfolding state_text ms bytes human_count
  summary_text r =
      codes "Query    "
      ++ r.query_id
      ++ codes "\nState    "
      ++ state_text r
      ++ codes "\nUser     "
      ++ r.user_name
      ++ codes "    Source "
      ++ r.source
      ++ codes "    Type "
      ++ r.query_type
      ++ codes "\nTimings  queued "
      ++ ms r.queued_ms
      ++ codes "  planning "
      ++ ms r.planning_ms
      ++ codes "  exec "
      ++ ms r.execution_ms
      ++ codes "  wall "
      ++ ms r.wall_ms
      ++ codes "\nCPU      "
      ++ ms r.cpu_ms
      ++ codes "    Peak mem "
      ++ bytes r.peak_user_memory_bytes
      ++ codes "\nIO       in "
      ++ bytes r.physical_input_bytes
      ++ codes " / "
      ++ human_count r.physical_input_rows
      ++ codes " rows    out "
      ++ human_count r.output_rows
      ++ codes " rows    written "
      ++ human_count r.written_rows
      ++ codes " rows\n"

  error_text : Row → Bytes
  unfolding is_empty trunc one_line
  error_text r =
      if is_empty r.error_message
      then []
      else codes "Error    " ++ trunc (one_line r.error_message) 200 ++ codes "\n"

  inputs_text : List InputMetadata → Bytes
  unfolding input_cells
  inputs_text [] = []
  inputs_text (i ∷ is) =
      codes "Inputs:\n"
      ++ p.align ((codes "  TABLE" ∷ codes "ROWS" ∷ codes "BYTES" ∷ []) ∷ map input_cells (i ∷ is))

  -- The dash is U+2014.
  plan_text : Row → Bytes
  unfolding is_empty bytes
  plan_text r =
      if is_empty r.plan && is_empty r.json_plan
      then []
      else codes "\nPlan     "
        ++ bytes (pos (length r.plan))
        ++ codes " text / "
        ++ bytes (pos (length r.json_plan))
        ++ codes " json "
        ++ (0xe2 ∷ 0x80 ∷ 0x94 ∷ [])
        ++ codes " run `query plan "
        ++ r.query_id
        ++ codes "` for CPU hotspots\n"

  unfoldable pub print_detail : QueryDetail → Bytes
  unfolding summary_text error_text inputs_text plan_text
  print_detail d = summary_text d.row ++ error_text d.row ++ inputs_text d.inputs ++ plan_text d.row
