-- ===== src/Tests/Commands.antt =====
-- The theorems on the commands, the readiness probe and the arguments of the client.
use mathlib.Core.Path.{subst}
use trino_log_sink.Base.{
  Bool, Bytes, List, Option, [], ap, arith, bytes_eq, codes, false, if◌then◌else◌, inr, none, pos,
  refl, some, true, ◌∷◌, ◌≡◌,
}
use trino_log_sink.Settings.{Service}
use trino_log_sink.Store.Errors.{Error, opaque}
use trino_log_sink.Store.Cursor.{Result, failed, ok}
use trino_log_sink.Server.Readiness.{
  State, Steps, check_done, check_returns, check_stores, handle_readyz, mark_not_ready, marks,
  signal, start, stay, swap, then_step, waiting,
}
use trino_log_sink.Server.Readiness.Probe.{handle_readyz-last}
use trino_log_sink.Client.Arguments.{
  Ends, Parsed, Shortens, leaves, parse_with_id, parse_with_id-Ends,
}
use trino_log_sink.Main.{Backend, Process, run_command, signalled}
use trino_log_sink.Settings.Env.{Environment}
use trino_log_sink.Settings.Load.{load, loaded}
use trino_log_sink.Settings.Load.Usable.{load-IsUsable}
use trino_log_sink.Settings.Checks.Accepted.{IsUsable}
use trino_log_sink.Server.Filter.{ui_page}
use trino_log_sink.Server.Links.{Choices, get_pair, page_values}
use trino_log_sink.Server.Links.Kept.{Keeps, page_values-Keeps}
use trino_log_sink.Main.Closing.{IsOpening, IsProcess, IsStore, run_command-Closed}
use trino_log_sink.Tests.Services.{service}

-- A world that is whether the store is open; the last call of a store fails.
sample_store : Backend Bool
sample_store = record {
  init = λ w. (w, none);
  prune = λ w t. (w, some (opaque (codes "refused")));
  optimize = λ w t. (w, none);
  maintain = λ w s. (w, none);
  ddl_script = codes "CREATE";
  close = λ w. false;
}

sample_process : Process Bool
sample_process = record {
  open_cache = λ w. w;
  start = λ cfg opts w. w;
  wait = λ w. (w, signalled);
  mark_not_ready = λ w. w;
  shutdown = λ w d. (w, none);
  drain = λ w d. (w, none);
  close_cache = λ w. w;
}

sample_open : Service → Bool → Bool × Result (Backend Bool)
sample_open cfg w = (true, ok sample_store)

abbrev IsClosed : Bool → Type 0
IsClosed w = w ≡ false

abbrev IsOpen : Bool → Type 0
IsOpen w = w ≡ true

sample_store-IsStore : IsStore IsClosed IsOpen sample_store
unfolding sample_store
sample_store-IsStore = record {
  init_keeps = λ w h. h;
  prune_keeps = λ w t h. h;
  optimize_keeps = λ w t h. h;
  maintain_keeps = λ w s h. h;
  closes = λ w h. refl;
}

store_of : Result (Backend Bool) → Backend Bool
store_of (ok st) = st
store_of (failed e) = sample_store

opened_store :
    {st : Backend Bool}
    → ◌≡◌ {A = Result (Backend Bool)} (ok sample_store) (ok st)
    → sample_store ≡ st
unfolding store_of
opened_store e = ap store_of e

not_failed :
    {x : Error} {C : Type 0} → ◌≡◌ {A = Result (Backend Bool)} (ok sample_store) (failed x) → C
not_failed e = cc

sample_open-IsOpening : IsOpening IsClosed IsOpen sample_open
unfolding sample_open
sample_open-IsOpening = record {
  opens =
      λ cfg w st h e. (refl, subst (IsStore IsClosed IsOpen) (opened_store e) sample_store-IsStore);
  opens_none = λ cfg w x h e. not_failed e;
}

sample_process-IsProcess : IsProcess IsClosed IsOpen sample_process
unfolding sample_process
sample_process-IsProcess = record {
  open_cache_keeps = λ w h. h;
  start_keeps = λ cfg o w h. h;
  wait_keeps = λ w h. h;
  mark_keeps = λ w h. h;
  shutdown_keeps = λ w d h. h;
  drain_keeps = λ w d h. h;
  close_cache_keeps = λ w h. h;
}

run_command-Closed_example :
    (run_command sample_open sample_process
      (λ s. s)
      (λ w. w)
      (λ w s. w)
      (ok service)
      (pos 0)
      (codes "prune")
      false).0
    ≡ false
run_command-Closed_example =
    run_command-Closed IsClosed IsOpen sample_open sample_process sample_open-IsOpening
      sample_process-IsProcess (λ s. s) (λ w. w) (λ w s. w) (λ w h. h) (λ w s h. h) (ok service)
      (pos 0) (codes "prune") false refl

-- A check that succeeds.
abbrev ready_state : State
ready_state = record {
  ready = true;
  phase = waiting;
  cancelled = false;
  marked = false;
  last = some true;
}

ready-Steps : Steps start ready_state
unfolding start check_done swap
ready-Steps = then_step (then_step stay (check_returns true refl)) (check_stores true refl)

handle_readyz-last_example : ready_state.last ≡ some true
unfolding handle_readyz
handle_readyz-last_example = handle_readyz-last ready-Steps refl

-- A check that succeeded before the signal stores its outcome behind the mark.
late_check :
    Steps start
      (record { ready = true; phase = waiting; cancelled = true; marked = true; last = some true })
unfolding start check_done swap mark_not_ready
late_check =
    then_step (then_step (then_step (then_step stay (check_returns true refl)) signal) marks)
      (check_stores true refl)

-- Arguments without flags.
plain_parse : Bool → List Bytes → Bool × Parsed
plain_parse f args = (f, leaves args)

left_inj : {s t : List Bytes} → leaves s ≡ leaves t → s ≡ t
left_inj h = cc

plain_parse-Shortens : Shortens plain_parse
unfolding plain_parse
plain_parse-Shortens f args rest h = let e = left_inj h in rw e (omega arith)

parse_with_id-Ends_example :
    Ends plain_parse (parse_with_id plain_parse false (codes "20240229_1" ∷ []))
parse_with_id-Ends_example =
    parse_with_id-Ends plain_parse plain_parse-Shortens false (codes "20240229_1" ∷ [])

-- An environment with one variable, and no duration that can be parsed.
one_variable : Bytes → Option Bytes
unfolding bytes_eq
one_variable key = if bytes_eq key (codes "BATCH_SIZE") then some (codes " 250") else none

abbrev environment : Environment
environment = record { look_up = one_variable; quoted = λ s. s; parse_duration = λ s. none }

abbrev configured : Service
configured = loaded environment

load_example : load environment ≡ inr configured
unfolding load one_variable
load_example = refl

load-IsUsable_example : IsUsable configured
load-IsUsable_example = load-IsUsable environment configured load_example

abbrev choices : Choices
choices = record {
  range = codes "7d";
  range_label = codes "Last 7 days";
  user = codes "ana";
  catalog = [];
  state = codes "FAILED";
  sort = codes "cpu";
  dir = codes "asc";
  failed_only = true;
  page = 6;
}

next_page :
    page_values choices 7
    ≡ (codes "range", codes "7d")
      ∷ (codes "user", codes "ana")
      ∷ (codes "state", codes "FAILED")
      ∷ (codes "sort", codes "cpu")
      ∷ (codes "dir", codes "asc")
      ∷ (codes "page", codes "7")
      ∷ []
unfolding page_values
next_page = refl

page_values-Keeps_example :
    (ui_page (get_pair (page_values choices 7)) ≡ 7) × Keeps choices (page_values choices 7)
page_values-Keeps_example = page_values-Keeps choices 7 (omega arith) (omega arith)
