-- ===== src/Store/ClickHouse/Options.antt =====
-- internal/store/clickhouse.go: `NewClickHouse`, `clickhouseOptions` and `clickhouseTLS`.
use trino_log_sink.Base.{
  Bool, Bool-cases, Bytes, Option, Option-cases, ap, codes, false, if◌then◌else◌, inl, inr,
  is_empty, max_ℤ, none, pos, refl, some, sym, true, ℕ, ℤ, ◌≡◌,
}
use trino_log_sink.Event.{Duration}
use trino_log_sink.Settings.{ClickHouse}
use trino_log_sink.Settings.HostPort.{split_host_port}
use trino_log_sink.Store.Errors.{Error, opaque, wrapped}
use trino_log_sink.Store.Cursor.{Result, failed, ok}
use trino_log_sink.Store.ClickHouse.Schema.{ClickHouseStore, new_clickhouse_store}

-- `tls.Config`; no roots are those of the system.
pub record TlsConfig (P : Type 0) : Type 0 where
  pub min_version : ℕ
  pub server_name : Bytes
  pub insecure_skip_verify : Bool
  pub root_cas : Option P

-- `tls.VersionTLS12`.
abbrev pub version_tls12 : ℕ
version_tls12 = 0x0303

-- `clickhouse.Options`; the compression is LZ4.
pub record Options (P : Type 0) : Type 0 where
  pub addr : Bytes
  pub username : Bytes
  pub password : Bytes
  pub dial_timeout : Duration
  pub read_timeout : Duration
  pub max_open_conns : ℕ
  pub max_idle_conns : ℕ
  pub max_compression_buffer : ℕ
  pub client_name : Bytes
  pub max_execution_time : ℤ
  pub max_result_rows : ℕ
  pub tls : Option (TlsConfig P)

-- Outside the repository: `os.ReadFile`, `AppendCertsFromPEM` on an empty pool with none for no certificate,
-- `int(d.Seconds())`, the error of `net.SplitHostPort`, and `clickhouse.Open`.
pub record Certificates (P C : Type 0) : Type 0 where
  pub read_file : Bytes → Result Bytes
  pub pool_of : Bytes → Option P
  pub int_seconds : Duration → ℤ
  pub host_port_error : Bytes → Error
  pub connect : Options P → Result C

module _ {P C : Type 0} (o : Certificates P C) where
  tls_for : ClickHouse → Bytes → Option P → TlsConfig P
  tls_for cfg host roots = record {
    min_version = version_tls12;
    server_name = host;
    insecure_skip_verify = cfg.tls_insecure;
    root_cas = roots;
  }

  with_pool : ClickHouse → Bytes → Option P → Result (TlsConfig P)
  unfolding tls_for
  with_pool cfg host none = failed (opaque (codes "CLICKHOUSE_TLS_CA: no certificates found"))
  with_pool cfg host (some pool) = ok (tls_for cfg host (some pool))

  with_pem : ClickHouse → Bytes → Result Bytes → Result (TlsConfig P)
  unfolding with_pool
  with_pem cfg host (failed e) = failed (wrapped (codes "read CLICKHOUSE_TLS_CA: ") e)
  with_pem cfg host (ok pem) = with_pool cfg host (o.pool_of pem)

  with_host : ClickHouse → Option (Bytes × Bytes) → Result (TlsConfig P)
  unfolding with_pem tls_for is_empty
  with_host cfg none = failed (wrapped (codes "clickhouse addr: ") (o.host_port_error cfg.addr))
  with_host cfg (some (host, port)) =
      if is_empty cfg.tls_ca
      then ok (tls_for cfg host none)
      else with_pem cfg host (o.read_file cfg.tls_ca)

  unfoldable pub clickhouse_tls : ClickHouse → Result (TlsConfig P)
  unfolding with_host split_host_port
  clickhouse_tls cfg = with_host cfg (split_host_port cfg.addr)

  options_with : ClickHouse → Option (TlsConfig P) → Options P
  options_with cfg tls = record {
    addr = cfg.addr;
    username = cfg.user;
    password = cfg.password;
    dial_timeout = cfg.dial_timeout;
    read_timeout = cfg.query_timeout;
    max_open_conns = 4;
    max_idle_conns = 2;
    max_compression_buffer = 4_194_304;
    client_name = codes "trino-query-log-sink";
    max_execution_time = max_ℤ (o.int_seconds cfg.query_timeout) (pos 1);
    max_result_rows = 10_000;
    tls = tls;
  }

  with_tls : ClickHouse → Result (TlsConfig P) → Result (Options P)
  unfolding options_with
  with_tls cfg (failed e) = failed e
  with_tls cfg (ok t) = ok (options_with cfg (some t))

  unfoldable pub clickhouse_options : ClickHouse → Result (Options P)
  unfolding with_tls clickhouse_tls options_with
  clickhouse_options cfg =
      if cfg.tls then with_tls cfg (clickhouse_tls cfg) else ok (options_with cfg none)

  opened : ClickHouse → Result C → Result (C × ClickHouseStore)
  unfolding new_clickhouse_store
  opened cfg (failed e) = failed (wrapped (codes "open clickhouse: ") e)
  opened cfg (ok conn) = ok (conn, new_clickhouse_store cfg)

  connected : ClickHouse → Result (Options P) → Result (C × ClickHouseStore)
  unfolding opened
  connected cfg (failed e) = failed e
  connected cfg (ok opts) = opened cfg (o.connect opts)

  unfoldable pub new_clickhouse : ClickHouse → Result (C × ClickHouseStore)
  unfolding connected clickhouse_options
  new_clickhouse cfg = connected cfg (clickhouse_options cfg)

  -- What the settings ask of a connection.
  abbrev pub Secures : ClickHouse → TlsConfig P → Type 0
  Secures cfg t =
      (host : Bytes) × (port : Bytes) × (split_host_port cfg.addr ≡ some (host, port))
      × (t.min_version ≡ 0x0303)
      × (t.server_name ≡ host)
      × (t.insecure_skip_verify ≡ cfg.tls_insecure)
      × (is_empty cfg.tls_ca ≡ false
          → (pem : Bytes) × (pool : P) × (o.read_file cfg.tls_ca ≡ ok pem)
            × (o.pool_of pem ≡ some pool)
            × (t.root_cas ≡ some pool))

  with_pem-ok :
      (cfg : ClickHouse) (host : Bytes) (pem : Result Bytes) (t : TlsConfig P)
      → with_pem cfg host pem ≡ ok t
      → (s : Bytes) × (pool : P) × (pem ≡ ok s)
        × (o.pool_of s ≡ some pool)
        × (tls_for cfg host (some pool) ≡ t)
  unfolding with_pem
  with_pem-ok cfg host (failed e) t h = cc
  with_pem-ok cfg host (ok s) t h = elim (Option-cases (o.pool_of s)) [
    | inl e ↦ let k = rw (e, with_pool) at h in cc
    | inr (pool, e) ↦ (s, pool, refl, e, let k = rw (e, with_pool) at h in cc)
  ]

  with_host-Secures :
      (cfg : ClickHouse) (o' : Option (Bytes × Bytes)) (t : TlsConfig P)
      → split_host_port cfg.addr ≡ o'
      → with_host cfg o' ≡ ok t
      → Secures cfg t
  unfolding with_host
  with_host-Secures cfg none t e h = cc
  with_host-Secures cfg (some (host, port)) t e h = elim (Bool-cases (is_empty cfg.tls_ca)) [
    | inl b ↦
        let k : tls_for cfg host none ≡ t = let l = rw b at h in cc in
        (
          host,
          port,
          e,
          sym (ap (λ x. x.min_version) k),
          sym (ap (λ x. x.server_name) k),
          sym (ap (λ x. x.insecure_skip_verify) k),
          λ c. cc,
        )
    | inr b ↦
        let (s, pool, i, j, k) = with_pem-ok cfg host (o.read_file cfg.tls_ca) t (rw b at h) in
        (
          host,
          port,
          e,
          sym (ap (λ x. x.min_version) k),
          sym (ap (λ x. x.server_name) k),
          sym (ap (λ x. x.insecure_skip_verify) k),
          λ c. (s, pool, i, j, sym (ap (λ x. x.root_cas) k)),
        )
  ]

  clickhouse_tls-Secures :
      (cfg : ClickHouse) (t : TlsConfig P) → clickhouse_tls cfg ≡ ok t → Secures cfg t
  unfolding clickhouse_tls
  clickhouse_tls-Secures cfg t h = with_host-Secures cfg (split_host_port cfg.addr) t refl h

  with_tls-Secures :
      (cfg : ClickHouse) (r : Result (TlsConfig P)) (opts : Options P)
      → clickhouse_tls cfg ≡ r
      → with_tls cfg r ≡ ok opts
      → (t : TlsConfig P) × (opts.tls ≡ some t) × Secures cfg t
  unfolding with_tls
  with_tls-Secures cfg (failed e) opts k h = cc
  with_tls-Secures cfg (ok t) opts k h =
      let l : options_with cfg (some t) ≡ opts = cc in
      (t, sym (ap (λ x. x.tls) l), clickhouse_tls-Secures cfg t k)

  -- The options of a configuration with TLS connect with TLS 1.2 or later to the host of the address, skip the check of its certificate
  -- only if CLICKHOUSE_TLS_INSECURE is set, and trust the certificates of CLICKHOUSE_TLS_CA alone if it is set;
  -- otherwise there are no options.
  pub clickhouse_options-Secures :
      (cfg : ClickHouse) (opts : Options P)
      → cfg.tls ≡ true
      → clickhouse_options cfg ≡ ok opts
      → (t : TlsConfig P) × (opts.tls ≡ some t) × Secures cfg t
  unfolding clickhouse_options
  clickhouse_options-Secures cfg opts b h =
      with_tls-Secures cfg (clickhouse_tls cfg) opts refl (rw b at h)
