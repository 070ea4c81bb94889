-- ===== src/Server/Requests.antt =====
-- internal/server/server.go: `New`, `logRequests` with `statusWriter`, and `render`.
use trino_log_sink.Base.{
  All, Bool, Bytes, List, Option, [], codes, false, if◌then◌else◌, none, pos, pos_part, refl, some,
  ℕ, ℤ, ◌/◌, ◌∷◌, ◌≡◌,
}
use trino_log_sink.Event.{Duration}
use trino_log_sink.Server.Routes.{Options}

-- The templates of a server with the UI; `parse` is `template.ParseFS`.
pub record Templates (T : Type 0) : Type 0 where
  pub dashboard_tmpl : T
  pub detail_tmpl : T
  pub partial_tmpl : T

pub record Server (T : Type 0) : Type 0 where
  pub opts : Options
  pub ready : Bool
  pub templates : Option (Templates T)

-- `New`; without the UI the three templates are nil.
unfoldable pub new : {T : Type 0} → (List Bytes → T) → Options → Server T
new parse opts = record {
  opts = opts;
  ready = false;
  templates =
      if opts.ui
      then some (record {
        dashboard_tmpl = parse (
            codes "templates/base.html"
            ∷ codes "templates/dashboard.html"
            ∷ codes "templates/table.html"
            ∷ []);
        detail_tmpl = parse (codes "templates/base.html" ∷ codes "templates/detail.html" ∷ []);
        partial_tmpl = parse (codes "templates/table.html" ∷ []);
      })
      else none;
}

-- What a handler does to its `http.ResponseWriter`.
pub data WriterCall : Type 0 where
  write_header : ℕ → WriterCall
  write : Bytes → WriterCall

-- The status that a `statusWriter` holds after the calls of the handler.
unfoldable pub recorded : ℕ → List WriterCall → ℕ
recorded status [] = status
recorded status (write_header code ∷ calls) = recorded code calls
recorded status (write b ∷ calls) = recorded status calls

pub record Logged : Type 0 where
  pub method : Bytes
  pub path : Bytes
  pub status : ℕ
  pub duration_ms : ℤ

-- What `logRequests` logs of a request that took a duration.
unfoldable pub log_request : Bytes → Bytes → Duration → List WriterCall → Logged
unfolding recorded
log_request method path d calls = record {
  method = method;
  path = path;
  status = recorded 200 calls;
  duration_ms = pos (pos_part d / 1_000_000);
}

-- The status that net/http sends: that of the first `WriteHeader`, or 200 when a body comes before it or nothing does.
unfoldable pub sent_status : List WriterCall → ℕ
sent_status [] = 200
sent_status (write_header code ∷ calls) = code
sent_status (write b ∷ calls) = 200

-- A body, and no status.
abbrev pub IsBody : WriterCall → Type 0
IsBody (write_header code) = ⊥
IsBody (write b) = Unit

recorded-body :
    (status : ℕ) (calls : List WriterCall) → All IsBody calls → recorded status calls ≡ status
unfolding recorded
recorded-body status [] h = refl
recorded-body status (write b ∷ calls) (h, hs) = recorded-body status calls hs
recorded-body status (write_header code ∷ calls) (h, hs) = absurd h

-- The logged status is the one that was sent, for a handler that sets a status only in its first call.
recorded-sent_status :
    (call : WriterCall) (calls : List WriterCall)
    → All IsBody calls
    → recorded 200 (call ∷ calls) ≡ sent_status (call ∷ calls)
unfolding recorded sent_status
recorded-sent_status (write_header code) calls h = recorded-body code calls h
recorded-sent_status (write b) calls h = recorded-body 200 calls h

pub record Page : Type 0 where
  pub status : ℕ
  pub content_type : Bytes
  pub body : Bytes

-- `render`: a template that fails leaves nothing of its text in the response.
unfoldable pub render : Option Bytes → Page
render (some text) = record {
  status = 200;
  content_type = codes "text/html; charset=utf-8";
  body = text;
}
render none = record {
  status = 500;
  content_type = codes "text/plain; charset=utf-8";
  body = codes "internal error\n";
}
