-- ===== src/Client/Commands.antt =====
-- internal/querycli: `runList`, `runGet` and `runPlan`, from the arguments to what is printed.
pub mod Sends
use trino_log_sink.Client.Plan.{Hotspot, Matches, parse_hotspots, print_hotspots, top_hotspots}
use trino_log_sink.Client.Connection.{
  Connection, Outside, common_defaults, get_json, get_query, new_client,
}
use trino_log_sink.Base.{
  Bool, Bytes, List, Option, [], bytes_eq, codes, false, if◌then◌else◌, inl, inr, is_empty, join,
  none, pos, some, true, ℕ, ℤ, ◌*◌, ◌++◌, ◌==◌, ◌∷◌, ◌⊎◌,
}
use trino_log_sink.Event.{Duration}
use trino_log_sink.Client.{Answer, Failure, got, other, plan, refused}
use trino_log_sink.Client.Arguments.{Parsed, parse_flags, parse_with_id}
use trino_log_sink.Client.Request.{
  CommonFlags, ListFlags, check_flags, client_headers, list_values, read_response, set_value,
}
use trino_log_sink.Client.Printed.{
  ListEnvelope, Printing, QueryDetail, get_projection, print_detail, print_list,
}
use trino_log_sink.Event.Durations.{second}

unfoldable pub list_defaults : ListFlags
list_defaults = record {
  range = codes "24h";
  user = [];
  catalog = [];
  state = [];
  sort = codes "start";
  desc = true;
  limit = pos 20;
  offset = pos 0;
}

pub record PlanFlags : Type 0 where
  pub top : ℤ
  pub raw : Bool

unfoldable pub plan_defaults : PlanFlags
plan_defaults = record { top = pos 10; raw = false }

module _ {W : Type 0} (o : Outside W) where
  -- `render`; `json` is the indented encoding, or the text of its error.
  unfoldable pub render : W → Bytes → Bytes ⊎ Bytes → Bytes → W × Option Failure
  unfolding bytes_eq
  render w format json table =
      if bytes_eq format (codes "json")
      then elim json [ inl msg ↦ (w, some (other msg)) | inr text ↦ (o.write w text, none) ]
      else (o.write w table, none)

  listed :
      Printing
      → (ListEnvelope → Bytes ⊎ Bytes)
      → Bytes
      → W × Answer ListEnvelope
      → W × Option Failure
  unfolding render print_list
  listed p json output (w, refused e) = (w, some e)
  listed p json output (w, got env) = render w output (json env) (print_list p env)

  list_with :
      Printing
      → (Bytes → Answer ListEnvelope)
      → (ListEnvelope → Bytes ⊎ Bytes)
      → W
      → CommonFlags
      → ListFlags
      → Answer Connection
      → W × Option Failure
  unfolding listed get_json list_values
  list_with p decode json w common flags (refused e) = (w, some e)
  list_with p decode json w common flags (got cl) =
      listed p json common.output
        (get_json o decode w cl (codes "/api/v1/queries") (list_values flags))

  list_parsed :
      Printing
      → (Bytes → Answer ListEnvelope)
      → (ListEnvelope → Bytes ⊎ Bytes)
      → W
      → CommonFlags
      → ListFlags
      → Answer (List Bytes)
      → W × Option Failure
  unfolding list_with new_client join
  list_parsed p decode json w common flags (refused e) = (w, some e)
  list_parsed p decode json w common flags (got (a ∷ rest)) =
      (w, some (other (codes "unexpected argument(s): " ++ join (a ∷ rest) (codes " "))))
  list_parsed p decode json w common flags (got []) =
      list_with p decode json w common flags (new_client o common)

  unfoldable pub run_list :
      (CommonFlags × ListFlags → List Bytes → (CommonFlags × ListFlags) × Parsed)
      → Printing
      → (Bytes → Answer ListEnvelope)
      → (ListEnvelope → Bytes ⊎ Bytes)
      → W
      → List Bytes
      → W × Option Failure
  unfolding parse_flags list_parsed common_defaults list_defaults
  run_list parse p decode json w args =
      let ((common, flags), answer) = parse_flags parse (common_defaults, list_defaults) args in
      list_parsed p decode json w common flags answer

  detailed :
      Printing → (QueryDetail → Bytes ⊎ Bytes) → Bytes → W × Answer QueryDetail → W × Option Failure
  unfolding render print_detail get_projection
  detailed p json output (w, refused e) = (w, some e)
  detailed p json output (w, got d) = render w output (json (get_projection d)) (print_detail p d)

  get_with :
      Printing
      → (Bytes → Answer QueryDetail)
      → (QueryDetail → Bytes ⊎ Bytes)
      → W
      → CommonFlags
      → Bytes
      → Answer Connection
      → W × Option Failure
  unfolding detailed get_query
  get_with p decode json w common id (refused e) = (w, some e)
  get_with p decode json w common id (got cl) =
      detailed p json common.output (get_query o decode w cl id)

  get_parsed :
      Printing
      → (Bytes → Answer QueryDetail)
      → (QueryDetail → Bytes ⊎ Bytes)
      → W
      → CommonFlags
      → Answer Bytes
      → W × Option Failure
  unfolding get_with new_client
  get_parsed p decode json w common (refused e) = (w, some e)
  get_parsed p decode json w common (got id) =
      get_with p decode json w common id (new_client o common)

  -- None when the loop over the arguments does not end.
  unfoldable pub run_get :
      (CommonFlags → List Bytes → CommonFlags × Parsed)
      → Printing
      → (Bytes → Answer QueryDetail)
      → (QueryDetail → Bytes ⊎ Bytes)
      → W
      → List Bytes
      → Option (W × Option Failure)
  unfolding parse_with_id get_parsed common_defaults
  run_get parse p decode json w args = elim (parse_with_id parse common_defaults args) [
    | none ↦ none
    | some (common, answer) ↦ some (get_parsed p decode json w common answer)
  ]

  module _ {F : Type 0} (m : Matches F) (percent : F → Bytes) where
    show_plan :
        Printing
        → (List (Hotspot F) → Bytes ⊎ Bytes)
        → Bytes
        → PlanFlags
        → W × Answer QueryDetail
        → W × Option Failure
    unfolding render is_empty top_hotspots parse_hotspots print_hotspots
    show_plan p json output flags (w, refused e) = (w, some e)
    show_plan p json output flags (w, got d) =
        if flags.raw
        then (if is_empty d.row.plan
            then (o.write_error w (codes "(no text plan recorded for this query)\n"), none)
            else (o.write w (d.row.plan ++ codes "\n"), none))
        else let hs = top_hotspots m flags.top (parse_hotspots m d.row.plan) in
          render w output (json hs) (print_hotspots m p.align percent hs)

    plan_with :
        Printing
        → (Bytes → Answer QueryDetail)
        → (List (Hotspot F) → Bytes ⊎ Bytes)
        → W
        → CommonFlags
        → PlanFlags
        → Bytes
        → Answer Connection
        → W × Option Failure
    unfolding show_plan get_query
    plan_with p decode json w common flags id (refused e) = (w, some e)
    plan_with p decode json w common flags id (got cl) =
        show_plan p json common.output flags (get_query o decode w cl id)

    plan_parsed :
        Printing
        → (Bytes → Answer QueryDetail)
        → (List (Hotspot F) → Bytes ⊎ Bytes)
        → W
        → CommonFlags
        → PlanFlags
        → Answer Bytes
        → W × Option Failure
    unfolding plan_with new_client
    plan_parsed p decode json w common flags (refused e) = (w, some e)
    plan_parsed p decode json w common flags (got id) =
        plan_with p decode json w common flags id (new_client o common)

    unfoldable pub run_plan :
        (CommonFlags × PlanFlags → List Bytes → (CommonFlags × PlanFlags) × Parsed)
        → Printing
        → (Bytes → Answer QueryDetail)
        → (List (Hotspot F) → Bytes ⊎ Bytes)
        → W
        → List Bytes
        → Option (W × Option Failure)
    unfolding parse_with_id plan_parsed common_defaults plan_defaults
    run_plan parse p decode json w args =
        elim (parse_with_id parse (common_defaults, plan_defaults) args) [
          | none ↦ none
          | some ((common, flags), answer) ↦ some (plan_parsed p decode json w common flags answer)
        ]
