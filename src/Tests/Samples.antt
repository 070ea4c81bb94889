-- ===== src/Tests/Samples.antt =====
-- Rows, environments and databases for the tests.
use trino_log_sink.Base.{
  All, Bytes, List, Option, [], ap, append-nil, arith, codes, concat, false, length, map, none, pos,
  refl, some, suc, sym, take, zero, ℕ, ◌++◌, ◌∷◌, ◌≡◌, ◌≤◌,
}
use trino_log_sink.Store.Row.{Arg, Row, args}
use trino_log_sink.Store.Errors.{Error, as_partial_commit, committed_rows, opaque}
use trino_log_sink.Store.Trino.Statements.{TrinoConfig, TrinoStore, build_statements}
use trino_log_sink.Store.Trino.Delivery.{Database}
use trino_log_sink.Ingest.Flush.{Config, Env, Flushing}
use trino_log_sink.Ingest.Flush.Contract.{Contract}
use trino_log_sink.Ingest.Flush.Accounting.{KeepsLength}

-- A row with a query id and a query text.
abbrev pub row : Bytes → Bytes → Row
row id query = record {
  query_id = id;
  query_state = codes "FINISHED";
  query_type = [];
  user_name = codes "alice";
  source = [];
  principal = [];
  client_tags = [];
  catalog = [];
  schema_name = [];
  query_text = query;
  query_preview = [];
  update_type = [];
  create_time = pos 5;
  execution_start_time = none;
  end_time = some (pos 9);
  queued_ms = pos 0;
  analysis_ms = pos 0;
  planning_ms = pos 0;
  execution_ms = pos 0;
  wall_ms = pos 7;
  cpu_ms = pos 0;
  peak_user_memory_bytes = pos 0;
  peak_total_memory_bytes = pos 0;
  physical_input_bytes = pos 0;
  physical_input_rows = pos 0;
  processed_input_bytes = pos 0;
  processed_input_rows = pos 0;
  output_bytes = pos 0;
  output_rows = pos 0;
  written_bytes = pos 0;
  written_rows = pos 0;
  completed_splits = pos 0;
  error_code = [];
  error_type = [];
  error_message = [];
  plan = [];
  json_plan = [];
  inputs_json = [];
  resource_group = [];
  server_version = [];
  environment = [];
}

abbrev pub row_a : Row
row_a = row (codes "a") (codes "SELECT 1")

abbrev pub row_b : Row
row_b = row (codes "b") (codes "SELECT 2")

-- A later event of the query of `row_a`.
abbrev pub row_a' : Row
row_a' = row (codes "a") (codes "SELECT 3")

abbrev pub three_rows : List Row
three_rows = row_a ∷ row_b ∷ row_a' ∷ []

abbrev pub Always : Row → Type 0
Always r = Unit

pub All-Always : (rows : List Row) → All Always rows
All-Always [] = tt
All-Always (r ∷ rows) = (tt, All-Always rows)

-- A store that fails a number of times, and then appends.
unfoldable pub flaky_insert : ℕ × List Row → List Row → (ℕ × List Row) × Option Error
flaky_insert (zero, rows) batch = ((0, rows ++ batch), none)
flaky_insert (suc n, rows) batch = ((n, rows), some (opaque (codes "down")))

abbrev pub flaky_env : Env
flaky_env = record {
  World = ℕ × List Row;
  insert_batch = λ d w batch. flaky_insert w batch;
  split_batch = none;
  canceled = λ w. false;
  unix_ms = λ w. pos 0;
  elapsed_ms = λ v w. pos 0;
  wait = λ d w. w;
  cancel = λ w. w;
}

abbrev pub flaky_rows : ℕ × List Row → List Row
flaky_rows w = w.1

pub flaky_done :
    (w : ℕ × List Row) (batch : List Row)
    → (flaky_insert w batch).1 ≡ none
    → flaky_rows (flaky_insert w batch).0 ≡ flaky_rows w ++ map (λ r. r) batch
unfolding flaky_insert
flaky_done (zero, rows) batch h = ap (λ xs. rows ++ xs) (sym (map_same batch))
  where
    map_same : (rs : List Row) → map (λ r. r) rs ≡ rs
    map_same [] = refl
    map_same (r ∷ rs) = ap (λ xs. r ∷ xs) (map_same rs)
flaky_done (suc n, rows) batch h = cc

flaky_failed :
    (w : ℕ × List Row) (batch : List Row) (x : Error)
    → (flaky_insert w batch).1 ≡ some x
    → (n : ℕ) × (committed_rows x ≡ pos n)
      × (n ≤ length batch)
      × (flaky_rows (flaky_insert w batch).0 ≡ flaky_rows w ++ take n (map (λ r. r) batch))
unfolding flaky_insert committed_rows
flaky_failed (zero, rows) batch x h = cc
flaky_failed (suc n, rows) batch x h =
    let e : opaque (codes "down") ≡ x = cc in
    (0, ap committed_rows (sym e), omega arith, sym (append-nil rows))

pub flaky_env-Contract : Contract flaky_env Always (λ r. r) flaky_rows
flaky_env-Contract = record {
  split_keeps = λ f e rows h. cc;
  insert_done = λ d w rows h p. flaky_done w rows p;
  insert_failed = λ d w rows x h p. flaky_failed w rows x p;
  wait_keeps = λ d w. refl;
  cancel_keeps = λ w. refl;
}

pub flaky_env-KeepsLength : KeepsLength flaky_env
flaky_env-KeepsLength f e rows = cc

abbrev pub buffer_config : Config
buffer_config = record {
  batch_size = 2;
  flush_interval = pos 2_000_000_000;
  buffer_capacity = pos 3;
  max_retries = pos 2;
  flush_timeout = pos 30_000_000_000;
  retry_backoff = pos 1_000_000_000;
  retry_max_backoff = pos 30_000_000_000;
}

abbrev pub flushing : ℕ → Flushing (ℕ × List Row)
flushing n = record {
  world = (n, []);
  last_flush_unix_ms = pos 0;
  last_flush_duration_ms = pos 0;
  calls = [];
}

abbrev pub trino_config : TrinoConfig
trino_config = record {
  catalog = codes "iceberg";
  schema = codes "ops";
  table = codes "query_log";
  max_statement_bytes = pos 0;
  iceberg_location = [];
}

abbrev pub trino_store : TrinoStore
trino_store = build_statements trino_config

-- A table, as the values of its rows; the arguments of a statement are cut at every 41st.
unfoldable pub collect : ℕ → List Arg → List Arg → List (List Arg)
collect left cur [] = []
collect zero cur (a ∷ rest) = (cur ++ a ∷ []) ∷ collect 40 [] rest
collect (suc left) cur (a ∷ rest) = collect left (cur ++ a ∷ []) rest

collect-args : (rows : List Row) → collect 40 [] (concat (map args rows)) ≡ map args rows
unfolding collect args
collect-args [] = refl
collect-args (r ∷ rows) = ap (λ xs. args r ∷ xs) (collect-args rows)

unfoldable pub flaky_exec :
    ℕ × List (List Arg) → Bytes → List Arg → (ℕ × List (List Arg)) × Option Error
flaky_exec (zero, t) stmt values = ((0, t ++ collect 40 [] values), none)
flaky_exec (suc n, t) stmt values = ((n, t), some (opaque (codes "down")))

abbrev pub flaky_table : ℕ × List (List Arg) → List (List Arg)
flaky_table w = w.1

flaky_exec_done :
    (w : ℕ × List (List Arg)) (stmt : Bytes) (rows : List Row)
    → (flaky_exec w stmt (concat (map args rows))).1 ≡ none
    → flaky_table (flaky_exec w stmt (concat (map args rows))).0 ≡ flaky_table w ++ map args rows
unfolding flaky_exec
flaky_exec_done (zero, t) stmt rows h = ap (λ xs. t ++ xs) (collect-args rows)
flaky_exec_done (suc n, t) stmt rows h = cc

flaky_exec_failed :
    (w : ℕ × List (List Arg)) (stmt : Bytes) (values : List Arg) (x : Error)
    → (flaky_exec w stmt values).1 ≡ some x
    → (flaky_table (flaky_exec w stmt values).0 ≡ flaky_table w) × (as_partial_commit x ≡ none)
unfolding flaky_exec as_partial_commit
flaky_exec_failed (zero, t) stmt values x h = cc
flaky_exec_failed (suc n, t) stmt values x h =
    let e : opaque (codes "down") ≡ x = cc in (refl, ap as_partial_commit (sym e))

pub flaky_exec-Database : Database trino_store flaky_exec flaky_table
flaky_exec-Database = record {
  exec_done = λ w rows h. flaky_exec_done w _ rows h;
  exec_failed = λ w rows x h. flaky_exec_failed w _ _ x h;
}
