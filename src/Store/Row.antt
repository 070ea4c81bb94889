-- ===== src/Store/Row.antt =====
-- internal/store/store.go: a row of the query log, and its values in column order.
use trino_log_sink.Base.{Option, none, some, List, [], ◌∷◌, ℤ, Bytes}
use trino_log_sink.Event.{Time}

pub record Row : Type 0 where
  pub query_id : Bytes
  pub query_state : Bytes
  pub query_type : Bytes
  pub user_name : Bytes
  pub source : Bytes
  pub principal : Bytes
  pub client_tags : Bytes
  pub catalog : Bytes
  pub schema_name : Bytes
  pub query_text : Bytes
  pub query_preview : Bytes
  pub update_type : Bytes
  pub create_time : Time
  pub execution_start_time : Option Time
  pub end_time : Option Time
  pub queued_ms : ℤ
  pub analysis_ms : ℤ
  pub planning_ms : ℤ
  pub execution_ms : ℤ
  pub wall_ms : ℤ
  pub cpu_ms : ℤ
  pub peak_user_memory_bytes : ℤ
  pub peak_total_memory_bytes : ℤ
  pub physical_input_bytes : ℤ
  pub physical_input_rows : ℤ
  pub processed_input_bytes : ℤ
  pub processed_input_rows : ℤ
  pub output_bytes : ℤ
  pub output_rows : ℤ
  pub written_bytes : ℤ
  pub written_rows : ℤ
  pub completed_splits : ℤ
  pub error_code : Bytes
  pub error_type : Bytes
  pub error_message : Bytes
  pub plan : Bytes
  pub json_plan : Bytes
  pub inputs_json : Bytes
  pub resource_group : Bytes
  pub server_version : Bytes
  pub environment : Bytes

-- A value that a driver is given: Go's `any`, at the types that a row holds.
pub data Arg : Type 0 where
  null : Arg
  text : Bytes → Arg
  time : Time → Arg
  int64 : ℤ → Arg

unfoldable pub time_arg : Option Time → Arg
time_arg none = null
time_arg (some t) = time t

unfoldable pub args : Row → List Arg
unfolding time_arg
args r =
    text r.query_id
    ∷ text r.query_state
    ∷ text r.query_type
    ∷ text r.user_name
    ∷ text r.source
    ∷ text r.principal
    ∷ text r.client_tags
    ∷ text r.catalog
    ∷ text r.schema_name
    ∷ text r.query_text
    ∷ text r.query_preview
    ∷ text r.update_type
    ∷ time r.create_time
    ∷ time_arg r.execution_start_time
    ∷ time_arg r.end_time
    ∷ int64 r.queued_ms
    ∷ int64 r.analysis_ms
    ∷ int64 r.planning_ms
    ∷ int64 r.execution_ms
    ∷ int64 r.wall_ms
    ∷ int64 r.cpu_ms
    ∷ int64 r.peak_user_memory_bytes
    ∷ int64 r.peak_total_memory_bytes
    ∷ int64 r.physical_input_bytes
    ∷ int64 r.physical_input_rows
    ∷ int64 r.processed_input_bytes
    ∷ int64 r.processed_input_rows
    ∷ int64 r.output_bytes
    ∷ int64 r.output_rows
    ∷ int64 r.written_bytes
    ∷ int64 r.written_rows
    ∷ int64 r.completed_splits
    ∷ text r.error_code
    ∷ text r.error_type
    ∷ text r.error_message
    ∷ text r.plan
    ∷ text r.json_plan
    ∷ text r.inputs_json
    ∷ text r.resource_group
    ∷ text r.server_version
    ∷ text r.environment
    ∷ []
