-- ===== src/Store/FromEvent.antt =====
-- internal/store/row.go: the row of an event, the plan policy and the preview.
pub mod Policy
use trino_log_sink.Base.{
  Bool, Bytes, List, Option, [], bytes_eq, codes, false, fields, if◌then◌else◌, is_empty, join,
  leb_ℤ, length, ltb_ℤ, negsuc, none, not, pos, pos_part, some, suc, take, true, zero, ℕ, ℤ, ◌&&◌,
  ◌/◌, ◌||◌, ◌∷◌,
}
use trino_log_sink.Event.{Duration, Event, FailureInfo, InputMetadata, Time, deref, source_value}
use trino_log_sink.Store.Row.{Row}
use trino_log_sink.Store.Truncate.{rune_safe_cut}

abbrev pub nanos_per_milli : ℕ
nanos_per_milli = 1_000_000

-- The integer -n.
negative : ℕ → ℤ
negative zero = pos 0
negative (suc n) = negsuc n

-- `Duration.Millis` and `Duration.Milliseconds`: a division that rounds towards zero.
unfoldable pub millis : Duration → ℤ
unfolding negative
millis (pos n) = pos (n / nanos_per_milli)
millis (negsuc n) = negative (suc n / nanos_per_milli)

or_zero_time : Option Time → Time
or_zero_time none = pos 0
or_zero_time (some t) = t

-- What `FailureInfo` gives: the code, the type and the message of the error.
unfoldable pub failure_fields : Option FailureInfo → Bytes × Bytes × Bytes
unfolding deref is_empty
failure_fields none = ([], [], [])
failure_fields (some f) = (
  f.error_code.name,
  if is_empty f.error_code.error_type then deref f.failure_type else f.error_code.error_type,
  deref f.failure_message,
)

or_empty : Option Bytes → Bytes
or_empty none = []
or_empty (some s) = s

-- `marshal` is `json.Marshal` of the inputs, with none for an error.
unfoldable pub inputs_field : (List InputMetadata → Option Bytes) → List InputMetadata → Bytes
unfolding or_empty
inputs_field marshal [] = []
inputs_field marshal (i ∷ inputs) = or_empty (marshal (i ∷ inputs))

unfoldable pub row_from_event : (List InputMetadata → Option Bytes) → Event → Row
unfolding deref source_value join millis or_zero_time failure_fields inputs_field
row_from_event marshal e =
    let (error_code, error_type, error_message) = failure_fields e.failure_info in
    record {
      query_id = e.metadata.query_id;
      query_state = e.metadata.query_state;
      query_type = deref e.context.query_type;
      user_name = e.context.user;
      source = source_value e;
      principal = deref e.context.principal;
      client_tags = join e.context.client_tags (codes ",");
      catalog = deref e.context.catalog;
      schema_name = deref e.context.schema;
      query_text = e.metadata.query;
      query_preview = [];
      update_type = deref e.metadata.update_type;
      create_time = or_zero_time e.create_time;
      execution_start_time = e.execution_start_time;
      end_time = e.end_time;
      queued_ms = millis e.statistics.queued_time;
      analysis_ms = millis e.statistics.analysis_time;
      planning_ms = millis e.statistics.planning_time;
      execution_ms = millis e.statistics.execution_time;
      wall_ms = millis e.statistics.wall_time;
      cpu_ms = millis e.statistics.cpu_time;
      peak_user_memory_bytes = e.statistics.peak_user_memory_bytes;
      peak_total_memory_bytes = e.statistics.peak_task_total_memory;
      physical_input_bytes = e.statistics.physical_input_bytes;
      physical_input_rows = e.statistics.physical_input_rows;
      processed_input_bytes = e.statistics.processed_input_bytes;
      processed_input_rows = e.statistics.processed_input_rows;
      output_bytes = e.statistics.output_bytes;
      output_rows = e.statistics.output_rows;
      written_bytes = e.statistics.written_bytes;
      written_rows = e.statistics.written_rows;
      completed_splits = e.statistics.completed_splits;
      error_code = error_code;
      error_type = error_type;
      error_message = error_message;
      plan = deref e.metadata.plan;
      json_plan = deref e.metadata.json_plan;
      inputs_json = inputs_field marshal e.io_metadata.inputs;
      resource_group = join e.context.resource_group_id (codes ".");
      server_version = e.context.server_version;
      environment = e.context.environment;
    }

pub record PlanPolicy : Type 0 where
  pub capture : Bytes
  pub min_wall : Duration

abbrev pub plan_capture_none : Bytes
plan_capture_none = codes "none"

abbrev pub plan_capture_slow_or_failed : Bytes
plan_capture_slow_or_failed = codes "slow_or_failed"

unfoldable pub keeps_plans : Row → PlanPolicy → Bool
unfolding bytes_eq is_empty millis
keeps_plans r p =
    if bytes_eq p.capture plan_capture_none
    then false
    else if bytes_eq p.capture plan_capture_slow_or_failed
    then not (is_empty r.error_code) || leb_ℤ (millis p.min_wall) r.wall_ms
    else true

unfoldable pub apply_plan_policy : Row → PlanPolicy → Row
unfolding keeps_plans
apply_plan_policy r p = if keeps_plans r p then r else record r { plan = []; json_plan = [] }

unfoldable pub preview_text : Bytes → ℤ → Bytes
unfolding fields join rune_safe_cut
preview_text query max_bytes =
    let preview = join (fields query) (codes " ") in
    if ltb_ℤ (pos 0) max_bytes && ltb_ℤ max_bytes (pos (length preview))
    then take (rune_safe_cut preview (pos_part max_bytes)) preview
    else preview

unfoldable pub with_preview : Row → ℤ → Row
unfolding preview_text
with_preview r max_bytes = record r { query_preview = preview_text r.query_text max_bytes }
