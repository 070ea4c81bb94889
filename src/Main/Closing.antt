-- ===== src/Main/Closing.antt =====
-- cmd/trino-query-log-sink/main.go: the deferred closing of the store.
use trino_log_sink.Base.{
  Bool-cases, Bytes, Option, Option-cases, bytes_eq, if_intro, if◌then◌else◌, inl, inr, ltb_ℤ, none,
  pos, ℤ, ◌≡◌,
}
use trino_log_sink.Event.{Duration, Time}
use trino_log_sink.Settings.{Service, backend_trino}
use trino_log_sink.Store.Errors.{Error}
use trino_log_sink.Store.Cursor.{Result, failed, ok}
use trino_log_sink.Store.Cursor.Complete.{Result-cases}
use trino_log_sink.Server.Routes.{Options}
use trino_log_sink.Retention
use trino_log_sink.Retention.{optimize_window_start, partition_aligned_cutoff, run}
use trino_log_sink.Main.{
  Backend, Command, Process, Stopped, command_named, ddl, init, init_ddl, listener_closed,
  listener_failed, maintain, optimize, print_ddl, prune, prune_error, run_command, run_loaded,
  run_maintain, run_optimize, run_prune, run_server, serve_store, servers, shut_down, signalled,
  stopped_server, unknown, uses_cache, with_store,
}

module _ {W : Type 0} (Closed Opened : W → Type 0) where
  -- The methods of a store that is open leave it open, and `Close` closes it.
  pub record IsStore (st : Backend W) : Type 0 where
    pub init_keeps : (w : W) → Opened w → Opened (st.init w).0
    pub prune_keeps : (w : W) (t : Time) → Opened w → Opened (st.prune w t).0
    pub optimize_keeps : (w : W) (t : Time) → Opened w → Opened (st.optimize w t).0
    pub maintain_keeps : (w : W) (s : Bytes) → Opened w → Opened (st.maintain w s).0
    pub closes : (w : W) → Opened w → Closed (st.close w)

  -- Opening a store gives one that is open, or leaves none.
  pub record IsOpening (open_store : Service → W → W × Result (Backend W)) : Type 0 where
    pub opens :
        (cfg : Service) (w : W) (st : Backend W)
        → Closed w
        → (open_store cfg w).1 ≡ ok st
        → Opened (open_store cfg w).0 × IsStore st
    pub opens_none :
        (cfg : Service) (w : W) (e : Error)
        → Closed w
        → (open_store cfg w).1 ≡ failed e
        → Closed (open_store cfg w).0

  -- The server, the buffer and the cache leave the store open.
  pub record IsProcess (p : Process W) : Type 0 where
    pub open_cache_keeps : (w : W) → Opened w → Opened (p.open_cache w)
    pub start_keeps : (cfg : Service) (o : Options) (w : W) → Opened w → Opened (p.start cfg o w)
    pub wait_keeps : (w : W) → Opened w → Opened (p.wait w).0
    pub mark_keeps : (w : W) → Opened w → Opened (p.mark_not_ready w)
    pub shutdown_keeps : (w : W) (d : Duration) → Opened w → Opened (p.shutdown w d).0
    pub drain_keeps : (w : W) (d : Duration) → Opened w → Opened (p.drain w d).0
    pub close_cache_keeps : (w : W) → Opened w → Opened (p.close_cache w)

  module _ (open_store : Service → W → W × Result (Backend W)) (p : Process W)
      (law : IsOpening open_store) (process : IsProcess p) where
    run-Opened :
        (st : Backend W)
        → IsStore st
        → (days : ℤ) (now : Time) (w : W) → Opened w
        → Opened (Retention.run st.prune w days now).0
    unfolding Retention.run
    run-Opened st is days now w h =
        let k = is.prune_keeps w (partition_aligned_cutoff now days) h in
        elim (Bool-cases (ltb_ℤ days (pos 0))) [
          | inl b ↦ rw b h
          | inr b ↦ elim (Option-cases (st.prune w (partition_aligned_cutoff now days)).1) [
            | inl e ↦ rw (b, e) k
            | inr (x, e) ↦ rw (b, e) k
          ]
        ]

    with_store-Closed :
        (cfg : Service) (command : Backend W → W → W × Option Error)
        → ((st : Backend W) (w : W) → IsStore st → Opened w → Opened (command st w).0)
        → (w : W) → Closed w
        → Closed (with_store open_store cfg command w).0
    unfolding with_store
    with_store-Closed cfg command k w h = elim (Result-cases (open_store cfg w).1) [
      | inr (e, i) ↦ rw (i, with_store) (law.opens_none cfg w e h i)
      | inl (st, i) ↦
          let (o, is) = law.opens cfg w st h i in rw (i, with_store) (is.closes _ (k st _ is o))
    ]

    shut_down-Opened : (opts : Options) (w : W) → Opened w → Opened (shut_down open_store p opts w)
    unfolding shut_down
    shut_down-Opened opts w h =
        let k = process.shutdown_keeps _ _ (process.mark_keeps w h) in
        if_intro Opened opts.ingest (process.drain_keeps _ _ k) k

    stopped_server-Opened :
        (opts : Options) (w : W) (stopped : Stopped)
        → Opened w
        → Opened (stopped_server open_store p opts w stopped).0
    unfolding stopped_server
    stopped_server-Opened opts w (listener_failed e) h = h
    stopped_server-Opened opts w listener_closed h = shut_down-Opened opts w h
    stopped_server-Opened opts w signalled h = shut_down-Opened opts w h

    serve_store-Opened :
        (cfg : Service) (opts : Options) (w : W)
        → Opened w
        → Opened (serve_store open_store p cfg opts w).0
    unfolding serve_store
    serve_store-Opened cfg opts w h =
        let cached = uses_cache open_store p cfg opts in
        let w' = p.start cfg opts (if cached then p.open_cache w else w) in
        let k = process.wait_keeps w' (
          process.start_keeps cfg opts _
            (if_intro Opened cached (process.open_cache_keeps w h) h)) in
        let l = stopped_server-Opened opts (p.wait w').0 (p.wait w').1 k in
        if_intro Opened cached (process.close_cache_keeps _ l) l

    module _ (print_usage : W → W) (print : W → Bytes → W)
        (usage_keeps : (w : W) → Closed w → Closed (print_usage w))
        (print_keeps : (w : W) (s : Bytes) → Opened w → Opened (print w s)) where
      run_loaded-Closed :
          (quoted : Bytes → Bytes) (now : Time) (c : Command) (cfg : Service) (w : W)
          → Closed w
          → Closed (run_loaded open_store p quoted print_usage print now c cfg w).0
      unfolding run_loaded run_server init_ddl run_prune run_optimize run_maintain print_ddl
      run_loaded-Closed quoted now (servers opts) cfg w h =
          with_store-Closed cfg (λ st. serve_store open_store p cfg opts)
            (λ st v is o. serve_store-Opened cfg opts v o) w h
      run_loaded-Closed quoted now init cfg w h =
          with_store-Closed cfg (λ st. st.init) (λ st v is o. is.init_keeps v o) w h
      run_loaded-Closed quoted now prune cfg w h =
          with_store-Closed cfg
            (λ st v. (
              (Retention.run st.prune v cfg.retention_days now).0,
              prune_error (Retention.run st.prune v cfg.retention_days now).1,
            ))
            (λ st v is o. run-Opened st is cfg.retention_days now v o) w h
      run_loaded-Closed quoted now optimize cfg w h =
          if_intro (λ (r : W × Option Error). Closed r.0) (bytes_eq cfg.store_backend backend_trino)
            (with_store-Closed cfg
              (λ st v. st.optimize v (optimize_window_start now cfg.optimize_days))
              (λ st v is o. is.optimize_keeps v _ o) w h)
            h
      run_loaded-Closed quoted now maintain cfg w h =
          if_intro (λ (r : W × Option Error). Closed r.0) (bytes_eq cfg.store_backend backend_trino)
            (with_store-Closed cfg (λ st v. st.maintain v cfg.maintain_retention)
              (λ st v is o. is.maintain_keeps v _ o) w h)
            h
      run_loaded-Closed quoted now ddl cfg w h =
          with_store-Closed cfg (λ st v. (print v st.ddl_script, none))
            (λ st v is o. print_keeps v st.ddl_script o) w h
      run_loaded-Closed quoted now (unknown cmd) cfg w h = usage_keeps w h

    -- Whatever its calls return, a command that starts without an open store ends without one, for a store
    -- that its methods and the server leave open and that Close closes.
    pub run_command-Closed :
        (quoted : Bytes → Bytes) (print_usage : W → W) (print : W → Bytes → W)
        → ((w : W) → Closed w → Closed (print_usage w))
        → ((w : W) (s : Bytes) → Opened w → Opened (print w s))
        → (loaded : Result Service) (now : Time) (cmd : Bytes) (w : W) → Closed w
        → Closed (run_command open_store p quoted print_usage print loaded now cmd w).0
    unfolding run_command
    run_command-Closed quoted print_usage print hu hp (failed e) now cmd w h =
        if_intro (λ (r : W × Option Error). Closed r.0) _ (hu w h) h
    run_command-Closed quoted print_usage print hu hp (ok cfg) now cmd w h =
        if_intro (λ (r : W × Option Error). Closed r.0) _ (hu w h)
          (run_loaded-Closed print_usage print hu hp quoted now (command_named cmd) cfg w h)
