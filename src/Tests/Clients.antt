-- ===== src/Tests/Clients.antt =====
-- The theorems on the commands of the client and on the connection to ClickHouse.
use trino_log_sink.Client.Connection.{Connection, Outside, RedirectError, trim_slashes}
use trino_log_sink.Base.{
  Bytes, List, Option, [], arith, bytes_eq, codes, false, inl, inr, is_empty, itoa, length, ltb,
  none, pos, refl, some, trim_space, true, ℕ, ◌++◌, ◌∷◌, ◌≡◌,
}
use trino_log_sink.Settings.{ClickHouse}
use trino_log_sink.Store.Errors.{opaque}
use trino_log_sink.Store.Cursor.{Result}
use trino_log_sink.Store.ClickHouse.Options.{
  Certificates, Options, Secures, TlsConfig, clickhouse_options, clickhouse_options-Secures,
}
use trino_log_sink.Client.{not_found, refused}
use trino_log_sink.Client.Arguments.{Parsed, leaves, misused}
use trino_log_sink.Client.Request.{CommonFlags, ListFlags, list_limit, list_offset}
use trino_log_sink.Client.Printed.{Printing}
use trino_log_sink.Client.Plan.{Matches, hotspots_loop, parse_hotspots, split_lines, top_hotspots}
use trino_log_sink.Client.Plan.Ranked.{Greatest, IsOrder, shown_count, top_hotspots-Greatest}
use trino_log_sink.Client.Commands.{run_list}
use trino_log_sink.Client.Commands.Sends.{Headers}

abbrev secured : ClickHouse
secured = record {
  addr = codes "ch:9440";
  user = codes "default";
  password = codes "secret";
  database = codes "logs";
  table = codes "queries";
  tls = true;
  tls_ca = codes "ca.pem";
  tls_insecure = false;
  dial_timeout = pos 0;
  query_timeout = pos 0;
  max_batch_bytes = pos 0;
}

-- A pool is its certificates, a connection the options.
abbrev certificates : Certificates Bytes (Options Bytes)
certificates = record {
  read_file = λ path. Result.ok (codes "PEM");
  pool_of = λ pem. some pem;
  int_seconds = λ d. pos 0;
  host_port_error = λ addr. opaque addr;
  connect = λ opts. Result.ok opts;
}

abbrev secured_options : Options Bytes
secured_options = record {
  addr = codes "ch:9440";
  username = codes "default";
  password = codes "secret";
  dial_timeout = pos 0;
  read_timeout = pos 0;
  max_open_conns = 4;
  max_idle_conns = 2;
  max_compression_buffer = 4_194_304;
  client_name = codes "trino-query-log-sink";
  max_execution_time = pos 1;
  max_result_rows = 10_000;
  tls = some (record {
    min_version = 0x0303;
    server_name = codes "ch";
    insecure_skip_verify = false;
    root_cas = some (codes "PEM");
  });
}

clickhouse_options_example : clickhouse_options certificates secured ≡ Result.ok secured_options
unfolding clickhouse_options is_empty
clickhouse_options_example = refl

clickhouse_options-Secures_example :
    (t : TlsConfig Bytes) × (secured_options.tls ≡ some t) × Secures certificates secured t
clickhouse_options-Secures_example =
    clickhouse_options-Secures certificates secured secured_options refl clickhouse_options_example

-- Plans whose lines are hotspots, with the length of the line as its percentage.
abbrev lengths : Matches ℕ
lengths = record {
  op_branch = λ ln. none;
  op_top = λ ln. none;
  cpu_pct = λ ln. some (ln, ln);
  rows = λ ln. none;
  parse_float = λ s. length s;
  gt = λ x y. ltb y x;
}

lengths-IsOrder : IsOrder lengths.gt
lengths-IsOrder = record {
  gt_asymm = λ x y h. ground arith;
  not-gt_trans = λ x y z h k. ground arith;
}

abbrev plan : Bytes
plan = codes "abc" ++ 10 ∷ codes "abcdef" ++ 10 ∷ codes "ab"

top_hotspots-Greatest_example :
    Greatest lengths plan (top_hotspots lengths (pos 2) (parse_hotspots lengths plan))
    × (length (top_hotspots lengths (pos 2) (parse_hotspots lengths plan))
        ≡ shown_count lengths (pos 2) (length (hotspots_loop lengths [] (split_lines plan []))))
top_hotspots-Greatest_example = top_hotspots-Greatest lengths lengths-IsOrder (pos 2) plan

-- The world is the requests that were sent.
abbrev Sent : Type 0
Sent = List (Bytes × Headers)

-- Every address answers with a redirect, which is followed once if the policy lets it.
redirected : Sent → Bytes → Headers → Option RedirectError → Sent
redirected w url hs (some e) = w ++ (url, hs) ∷ []
redirected w url hs none = w ++ (url, hs) ∷ (codes "http://elsewhere/", hs) ∷ []

sent_by : Sent → Bytes → Headers → Option (Bytes → List Bytes → Option RedirectError) → Sent
unfolding redirected
sent_by w url hs none = redirected w url hs none
sent_by w url hs (some check) = redirected w url hs (check (codes "http://elsewhere/") (url ∷ []))

abbrev outside : Outside Sent
outside = record {
  new_request = λ url. none;
  send = λ w cl url hs. (
    sent_by w url hs cl.check_redirect,
    inr (record { status = 302; status_text = codes "302 Found"; body = [] }),
  );
  write = λ w s. w;
  write_error = λ w s. w;
  quoted = λ s. s;
  canonical = λ s. s;
  read_file = λ path. inl (codes "missing");
  encode = λ q. codes "q";
  path_escape = λ s. s;
}

-- The first argument is the address, and the rest is left.
parse : CommonFlags × ListFlags → List Bytes → (CommonFlags × ListFlags) × Parsed
parse (common, flags) [] = ((common, flags), misused)
parse (common, flags) (url ∷ rest) = ((record common { url = url }, flags), leaves rest)

abbrev printing : Printing
printing = record { align = λ cells. []; seconds = λ d. []; quotient = λ n div. [] }

-- The slash at the end of the address is cut off.
run_list_example :
    (run_list outside parse printing
      (λ b. refused not_found)
      (λ env. inr [])
      []
      (codes "http://sink/" ∷ [])).0
    ≡ (codes "http://sink/api/v1/queries?q", (codes "Accept", codes "application/json") ∷ []) ∷ []
unfolding run_list parse trim_slashes trim_space is_empty bytes_eq list_limit list_offset itoa
    sent_by
run_list_example = refl
