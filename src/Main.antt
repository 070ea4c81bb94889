-- ===== src/Main.antt =====
-- cmd/trino-query-log-sink/main.go and internal/store/factory.go: the subcommands, the opening of the
-- backend, and the life of the server. What they call is a record of functions on the world.
pub mod Startup
pub mod Closing
use trino_log_sink.Base.{
  Bool, Bytes, List, Option, [], bytes_eq, codes, false, if◌then◌else◌, is_empty, itoa, none, not,
  pos, set, some, true, ℕ, ◌&&◌, ◌*◌, ◌++◌, ◌||◌, ◌∷◌,
}
use trino_log_sink.Event.{Duration, Time}
use trino_log_sink.Settings.{ClickHouse, Service, Trino, backend_clickhouse, backend_trino, enabled}
use trino_log_sink.Retention.{
  PruneError, negative_retention, optimize_window_start, prune_failed, run,
}
use trino_log_sink.Store.Errors.{Error, opaque, wrapped}
use trino_log_sink.Store.Cursor.{Result, failed, ok}
use trino_log_sink.Server.Routes.{Options}

-- The methods of a backend that the commands call.
pub record Backend (W : Type 0) : Type 0 where
  pub init : W → W × Option Error
  pub prune : W → Time → W × Option Error
  pub optimize : W → Time → W × Option Error
  pub maintain : W → Bytes → W × Option Error
  pub ddl_script : Bytes
  pub close : W → W

-- How the wait of `runServer` ends: the listener failed or was closed, or a signal came.
pub data Stopped : Type 0 where
  listener_failed : Error → Stopped
  listener_closed signalled : Stopped

-- The server, the buffer and the cache of a process.
pub record Process (W : Type 0) : Type 0 where
  pub open_cache : W → W
  pub start : Service → Options → W → W
  pub wait : W → W × Stopped
  pub mark_not_ready : W → W
  pub shutdown : W → Duration → W × Option Error
  pub drain : W → Duration → W × Option Error
  pub close_cache : W → W

seconds : ℕ → Duration
seconds n = pos (n * 1_000_000_000)

-- The subcommands; `servers` are serve, ingest and ui, by the options of their server.
pub data Command : Type 0 where
  servers : Options → Command
  init prune optimize maintain ddl : Command
  unknown : Bytes → Command

unfoldable pub command_named : Bytes → Command
unfolding bytes_eq
command_named cmd =
    if bytes_eq cmd (codes "serve")
    then servers record { ingest = true; ui = true }
    else if bytes_eq cmd (codes "ingest")
    then servers record { ingest = true; ui = false }
    else if bytes_eq cmd (codes "ui")
    then servers record { ingest = false; ui = true }
    else if bytes_eq cmd (codes "init")
    then init
    else if bytes_eq cmd (codes "prune")
    then prune
    else if bytes_eq cmd (codes "optimize")
    then optimize
    else if bytes_eq cmd (codes "maintain")
    then maintain
    else if bytes_eq cmd (codes "ddl")
    then ddl
    else unknown cmd

-- The errors of `prune.Run` as errors of the command.
unfoldable pub prune_error : Option PruneError → Option Error
unfolding itoa
prune_error none = none
prune_error (some (negative_retention n)) =
    some (opaque (codes "retentionDays must be >= 0, got " ++ itoa n))
prune_error (some (prune_failed e)) = some (wrapped (codes "prune: ") e)

module _ {W : Type 0} (open_store : Service → W → W × Result (Backend W)) where
  -- A command between the opening of the store and its deferred closing.
  unfoldable pub with_store : Service → (Backend W → W → W × Option Error) → W → W × Option Error
  with_store cfg command w =
      let (w', opened) = open_store cfg w in
      elim opened [
        | failed e ↦ (w', some e)
        | ok st ↦ let (w'', err) = command st w' in (st.close w'', err)
      ]

  unfoldable pub init_ddl : Service → W → W × Option Error
  unfolding with_store
  init_ddl cfg = with_store cfg (λ st. st.init)

  unfoldable pub run_prune : Time → Service → W → W × Option Error
  unfolding with_store run prune_error
  run_prune now cfg =
      with_store cfg
        (λ st w. let (w', err) = run st.prune w cfg.retention_days now in (w', prune_error err))

  unfoldable pub run_maintain : Service → W → W × Option Error
  unfolding with_store bytes_eq
  run_maintain cfg w =
      if bytes_eq cfg.store_backend backend_trino
      then with_store cfg (λ st w'. st.maintain w' cfg.maintain_retention) w
      else (w, none)

  unfoldable pub run_optimize : Time → Service → W → W × Option Error
  unfolding with_store optimize_window_start bytes_eq
  run_optimize now cfg w =
      if bytes_eq cfg.store_backend backend_trino
      then with_store cfg (λ st w'. st.optimize w' (optimize_window_start now cfg.optimize_days)) w
      else (w, none)

  unfoldable pub print_ddl : (W → Bytes → W) → Service → W → W × Option Error
  unfolding with_store
  print_ddl print cfg = with_store cfg (λ st w. (print w st.ddl_script, none))

  module _ (p : Process W) where
    -- The end of `runServer` when the listener did not fail.
    unfoldable pub shut_down : Options → W → W
    unfolding seconds
    shut_down opts w =
        let w' = (p.shutdown (p.mark_not_ready w) (seconds 25)).0 in
        if opts.ingest then (p.drain w' (seconds 20)).0 else w'

    -- The cache is opened for the read path only; a cache that does not answer is no error.
    unfoldable pub uses_cache : Service → Options → Bool
    unfolding enabled
    uses_cache cfg opts = opts.ui && enabled cfg.cache

    -- The rest of `runServer` for the end of the wait.
    unfoldable pub stopped_server : Options → W → Stopped → W × Option Error
    unfolding shut_down
    stopped_server opts w (listener_failed e) = (w, some (wrapped (codes "http server: ") e))
    stopped_server opts w listener_closed = (shut_down opts w, none)
    stopped_server opts w signalled = (shut_down opts w, none)

    unfoldable pub serve_store : Service → Options → W → W × Option Error
    unfolding stopped_server uses_cache
    serve_store cfg opts w =
        let cached = uses_cache cfg opts in
        let w' = p.start cfg opts (if cached then p.open_cache w else w) in
        let (w'', stopped) = p.wait w' in
        let (w3, err) = stopped_server opts w'' stopped in
        (if cached then p.close_cache w3 else w3, err)

    unfoldable pub run_server : Options → Service → W → W × Option Error
    unfolding with_store serve_store
    run_server opts cfg = with_store cfg (λ st. serve_store cfg opts)

    -- The switch of `run`; `print_usage` and `print` write to the terminal.
    unfoldable pub run_loaded :
        (Bytes → Bytes)
        → (W → W)
        → (W → Bytes → W)
        → Time
        → Command
        → Service
        → W
        → W × Option Error
    unfolding run_server init_ddl run_prune run_optimize run_maintain print_ddl
    run_loaded quoted print_usage print now (servers opts) cfg w = run_server opts cfg w
    run_loaded quoted print_usage print now init cfg w = init_ddl cfg w
    run_loaded quoted print_usage print now prune cfg w = run_prune now cfg w
    run_loaded quoted print_usage print now optimize cfg w = run_optimize now cfg w
    run_loaded quoted print_usage print now maintain cfg w = run_maintain cfg w
    run_loaded quoted print_usage print now ddl cfg w = print_ddl print cfg w
    run_loaded quoted print_usage print now (unknown cmd) cfg w =
        (print_usage w, some (opaque (codes "unknown subcommand " ++ quoted cmd)))

    -- `run`, for what `config.Load` gives and the command.
    unfoldable pub run_command :
        (Bytes → Bytes)
        → (W → W)
        → (W → Bytes → W)
        → Result Service
        → Time
        → Bytes
        → W
        → W × Option Error
    unfolding run_loaded command_named bytes_eq
    run_command quoted print_usage print loaded now cmd w =
        if bytes_eq cmd (codes "-h") || bytes_eq cmd (codes "--help") || bytes_eq cmd (codes "help")
        then (print_usage w, none)
        else elim loaded [
          | failed e ↦ (w, some (wrapped (codes "load config: ") e))
          | ok cfg ↦ run_loaded quoted print_usage print now (command_named cmd) cfg w
        ]

    -- `run` over the arguments of the process: the command is "serve" when there is none.
    unfoldable pub command_of : List Bytes → Bytes
    command_of [] = codes "serve"
    command_of (cmd ∷ rest) = cmd
