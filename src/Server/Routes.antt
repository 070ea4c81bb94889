-- ===== src/Server/Routes.antt =====
-- internal/server/server.go: `Handler`, the routes by the options; `securityHeaders` and `noDirListing`.
use trino_log_sink.Base.{Bool, Bytes, List, [], codes, false, if◌then◌else◌, ◌++◌, ◌==◌, ◌∷◌}

pub record Options : Type 0 where
  pub ingest : Bool
  pub ui : Bool

-- A pattern of the multiplexer, and its handler.
pub data Handler : Type 0 where
  healthz readyz post_ingest dashboard queries_partial query_detail api_list api_get static_files
        metrics :
      Handler

-- `metrics` is whether they are enabled and there are any.
unfoldable pub routes : Options → Bool → List (Bytes × Handler)
routes opts metrics_on =
    (codes "GET /healthz", healthz)
      ∷ (codes "GET /readyz", readyz)
      ∷ (if opts.ingest then (codes "POST /ingest", post_ingest) ∷ [] else [])
    ++ (if opts.ui
        then (codes "GET /{$}", dashboard)
          ∷ (codes "GET /partials/queries", queries_partial)
          ∷ (codes "GET /query/{queryId}", query_detail)
          ∷ (codes "GET /api/v1/queries", api_list)
          ∷ (codes "GET /api/v1/queries/{queryId}", api_get)
          ∷ (codes "GET /static/", static_files)
          ∷ []
        else [])
    ++ (if metrics_on then (codes "GET /metrics", metrics) ∷ [] else [])

-- The headers that every response has.
unfoldable pub security_headers : List (Bytes × Bytes)
security_headers =
    (
      codes "Content-Security-Policy",
      codes "default-src 'self'; frame-ancestors 'none'; base-uri 'self'",
    )
    ∷ (codes "X-Content-Type-Options", codes "nosniff")
    ∷ (codes "X-Frame-Options", codes "DENY")
    ∷ (codes "Referrer-Policy", codes "same-origin")
    ∷ []

-- Whether the path of a static file is answered by 404: it ends in a slash.
unfoldable pub no_dir_listing : Bytes → Bool
no_dir_listing [] = false
no_dir_listing (c ∷ []) = c == b'/'
no_dir_listing (c ∷ d ∷ path) = no_dir_listing (d ∷ path)
