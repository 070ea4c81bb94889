-- ===== src/Event.antt =====
-- internal/event/event.go: Trino's QueryCompletedEvent, its validation and its source.
-- A time is its nanoseconds since January 1 of year 1, UTC, which is Go's zero time; a duration is
-- its nanoseconds. A pointer is an `Option`.
pub mod Durations
use trino_log_sink.Base.{Bytes, List, Option, [], if◌then◌else◌, is_empty, none, some, ℤ}

abbrev pub Time : Type 0
Time = ℤ

abbrev pub Duration : Type 0
Duration = ℤ

pub record Metadata : Type 0 where
  pub query_id : Bytes
  pub transaction_id : Option Bytes
  pub query : Bytes
  pub update_type : Option Bytes
  pub prepared_query : Option Bytes
  pub query_state : Bytes
  pub uri : Bytes
  pub plan : Option Bytes
  pub json_plan : Option Bytes

pub record Statistics : Type 0 where
  pub cpu_time : Duration
  pub wall_time : Duration
  pub queued_time : Duration
  pub analysis_time : Duration
  pub planning_time : Duration
  pub execution_time : Duration
  pub peak_user_memory_bytes : ℤ
  pub peak_task_total_memory : ℤ
  pub physical_input_bytes : ℤ
  pub physical_input_rows : ℤ
  pub processed_input_bytes : ℤ
  pub processed_input_rows : ℤ
  pub output_bytes : ℤ
  pub output_rows : ℤ
  pub written_bytes : ℤ
  pub written_rows : ℤ
  pub completed_splits : ℤ

pub record Context : Type 0 where
  pub user : Bytes
  pub principal : Option Bytes
  pub source : Option Bytes
  pub catalog : Option Bytes
  pub schema : Option Bytes
  pub client_tags : List Bytes
  pub resource_group_id : List Bytes
  pub query_type : Option Bytes
  pub server_version : Bytes
  pub environment : Bytes

pub record InputColumn : Type 0 where
  pub name : Bytes
  pub column_type : Bytes

pub record InputMetadata : Type 0 where
  pub catalog_name : Bytes
  pub schema : Bytes
  pub table : Bytes
  pub columns : List InputColumn
  pub physical_input_bytes : Option ℤ
  pub physical_input_rows : Option ℤ

pub record IoMetadata : Type 0 where
  pub inputs : List InputMetadata

pub record ErrorCode : Type 0 where
  pub code : ℤ
  pub name : Bytes
  pub error_type : Bytes

pub record FailureInfo : Type 0 where
  pub error_code : ErrorCode
  pub failure_type : Option Bytes
  pub failure_message : Option Bytes

pub record Event : Type 0 where
  pub metadata : Metadata
  pub statistics : Statistics
  pub context : Context
  pub io_metadata : IoMetadata
  pub failure_info : Option FailureInfo
  pub create_time : Option Time
  pub execution_start_time : Option Time
  pub end_time : Option Time

-- Both errors wrap `ErrInvalidEvent`; the constructors are their messages.
pub data InvalidEvent : Type 0 where
  missing_query_id missing_create_time : InvalidEvent

unfoldable pub validate_create_time : Option Time → Option InvalidEvent
validate_create_time none = some missing_create_time
validate_create_time (some t) = none

unfoldable pub validate : Event → Option InvalidEvent
unfolding validate_create_time is_empty
validate e =
    if is_empty e.metadata.query_id
    then some missing_query_id
    else validate_create_time e.create_time

unfoldable pub deref : Option Bytes → Bytes
deref none = []
deref (some s) = s

unfoldable pub source_value : Event → Bytes
unfolding deref
source_value e = deref e.context.source
