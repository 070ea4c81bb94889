-- ===== src/Server/Detail.antt =====
-- internal/server/api.go and ui.go: `handleAPIGetQuery` and `handleQueryDetail`. `decode` is `json.Unmarshal`
-- of the inputs, which leaves what it could read.
use trino_log_sink.Base.{
  Bytes, List, Option, [], codes, if◌then◌else◌, is_empty, none, some, ℕ, ◌++◌,
}
use trino_log_sink.Event.{InputMetadata}
use trino_log_sink.Store.Row.{Row}
use trino_log_sink.Store.Errors.{Error}

-- A page or a body with a row, or a status with a text.
pub data Reply : Type 0 where
  found : Row → List InputMetadata → Reply
  error_reply : ℕ → Bytes → Reply

module _ (decode : Bytes → List InputMetadata) where
  unfoldable pub row_inputs : Row → List InputMetadata
  unfolding is_empty
  row_inputs r = if is_empty r.inputs_json then [] else decode r.inputs_json

  -- On the two results of `GetQuery`; the two handlers differ in the form of the reply only.
  unfoldable pub query_reply : Bytes → Option Row → Option Error → Reply
  unfolding row_inputs
  query_reply id got (some e) = error_reply 500 (codes "query lookup failed")
  query_reply id none none = error_reply 404 (codes "query not found: " ++ id)
  query_reply id (some r) none = found r (row_inputs r)

  unfoldable pub handle_get_query :
      {W : Type 0} → (W → Bytes → W × Option Row × Option Error) → W → Bytes → W × Reply
  unfolding query_reply
  handle_get_query get w id = let (w', got, err) = get w id in (w', query_reply id got err)
