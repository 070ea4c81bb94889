-- ===== src/Store/Identifier.antt =====
-- internal/store/store.go, identifier.go and the column tables: names in SQL text.
pub mod Quoting
use trino_log_sink.Base.{Bytes, List, [], codes, if◌then◌else◌, ℕ, ◌++◌, ◌==◌, ◌∷◌}

-- `sqlType`, which the schema takes from three types.
pub data SqlType : Type 0 where
  varchar timestamp bigint : SqlType

pub record Column : Type 0 where
  pub name : Bytes
  pub sql_type : SqlType

column : Bytes → SqlType → Column
column n t = record { name = n; sql_type = t }

unfoldable pub schema_columns : List Column
unfolding column
schema_columns =
    column (codes "query_id") varchar
    ∷ column (codes "query_state") varchar
    ∷ column (codes "query_type") varchar
    ∷ column (codes "user_name") varchar
    ∷ column (codes "source") varchar
    ∷ column (codes "principal") varchar
    ∷ column (codes "client_tags") varchar
    ∷ column (codes "catalog") varchar
    ∷ column (codes "schema_name") varchar
    ∷ column (codes "query_text") varchar
    ∷ column (codes "query_preview") varchar
    ∷ column (codes "update_type") varchar
    ∷ column (codes "create_time") timestamp
    ∷ column (codes "execution_start_time") timestamp
    ∷ column (codes "end_time") timestamp
    ∷ column (codes "queued_ms") bigint
    ∷ column (codes "analysis_ms") bigint
    ∷ column (codes "planning_ms") bigint
    ∷ column (codes "execution_ms") bigint
    ∷ column (codes "wall_ms") bigint
    ∷ column (codes "cpu_ms") bigint
    ∷ column (codes "peak_user_memory_bytes") bigint
    ∷ column (codes "peak_total_memory_bytes") bigint
    ∷ column (codes "physical_input_bytes") bigint
    ∷ column (codes "physical_input_rows") bigint
    ∷ column (codes "processed_input_bytes") bigint
    ∷ column (codes "processed_input_rows") bigint
    ∷ column (codes "output_bytes") bigint
    ∷ column (codes "output_rows") bigint
    ∷ column (codes "written_bytes") bigint
    ∷ column (codes "written_rows") bigint
    ∷ column (codes "completed_splits") bigint
    ∷ column (codes "error_code") varchar
    ∷ column (codes "error_type") varchar
    ∷ column (codes "error_message") varchar
    ∷ column (codes "plan") varchar
    ∷ column (codes "json_plan") varchar
    ∷ column (codes "inputs_json") varchar
    ∷ column (codes "resource_group") varchar
    ∷ column (codes "server_version") varchar
    ∷ column (codes "environment") varchar
    ∷ []

unfoldable pub summary_columns : List Bytes
summary_columns =
    codes "query_id"
    ∷ codes "create_time"
    ∷ codes "execution_start_time"
    ∷ codes "user_name"
    ∷ codes "source"
    ∷ codes "catalog"
    ∷ codes "query_state"
    ∷ codes "query_type"
    ∷ codes "query_preview"
    ∷ codes "wall_ms"
    ∷ codes "cpu_ms"
    ∷ codes "physical_input_bytes"
    ∷ codes "peak_user_memory_bytes"
    ∷ codes "output_rows"
    ∷ codes "processed_input_rows"
    ∷ codes "error_code"
    ∷ []

-- `strings.ReplaceAll(s, c, c + c)` for a text `c` of one byte.
unfoldable pub double_byte : ℕ → Bytes → Bytes
double_byte c [] = []
double_byte c (x ∷ s) = if x == c then c ∷ c ∷ double_byte c s else x ∷ double_byte c s

abbrev pub quote : ℕ
quote = 34

unfoldable pub quote_ident : Bytes → Bytes
unfolding double_byte
quote_ident s = quote ∷ double_byte quote s ++ quote ∷ []

unfoldable pub qualified_name : Bytes → Bytes → Bytes → Bytes
unfolding quote_ident
qualified_name catalog schema table =
    quote_ident catalog ++ b'.' ∷ [] ++ quote_ident schema ++ b'.' ∷ [] ++ quote_ident table
