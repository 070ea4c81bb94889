-- ===== src/Client/Connection.antt =====
-- internal/querycli/client.go: `registerCommon`, `newClient`, `getJSON` and `getQuery`.
use trino_log_sink.Base.{
  Bool, Bytes, List, Option, [], codes, false, if◌then◌else◌, inl, inr, none, pos, some, ℕ, ◌*◌,
  ◌++◌, ◌==◌, ◌∷◌, ◌⊎◌,
}
use trino_log_sink.Event.{Duration}
use trino_log_sink.Event.Durations.{second}
use trino_log_sink.Client.{Answer, got, other, refused}
use trino_log_sink.Client.Request.{
  CommonFlags, check_flags, client_headers, read_response, set_value,
}
use trino_log_sink.Client.Printed.{QueryDetail}

-- What a redirect policy returns to stop: `http.ErrUseLastResponse`, or another error.
pub data RedirectError : Type 0 where
  use_last_response : RedirectError
  redirect_failed : Bytes → RedirectError

-- `client` with its `http.Client`. The redirect policy is given the next address and those of the requests made
-- already, and none is the policy of net/http, which follows redirects.
pub record Connection : Type 0 where
  pub base : Bytes
  pub headers : List (Bytes × Bytes)
  pub timeout : Duration
  pub insecure : Bool
  pub check_redirect : Option (Bytes → List Bytes → Option RedirectError)

pub record HttpResponse : Type 0 where
  pub status : ℕ
  pub status_text : Bytes
  pub body : Bytes

-- What the client calls: `http.NewRequest` with the text of its error, `http.Client.Do`, the two streams that it
-- writes to, `%q`, the canonical form of a header's name, `os.ReadFile`, and the encodings of net/url.
pub record Outside (W : Type 0) : Type 0 where
  pub new_request : Bytes → Option Bytes
  pub send : W → Connection → Bytes → List (Bytes × Bytes) → W × (Bytes ⊎ HttpResponse)
  pub write : W → Bytes → W
  pub write_error : W → Bytes → W
  pub quoted : Bytes → Bytes
  pub canonical : Bytes → Bytes
  pub read_file : Bytes → Bytes ⊎ Bytes
  pub encode : List (Bytes × Bytes) → Bytes
  pub path_escape : Bytes → Bytes

-- `strings.TrimRight(s, "/")`; `seen` are the slashes that may end the text.
unfoldable pub trim_slashes : Bytes → Bytes → Bytes
trim_slashes [] seen = []
trim_slashes (c ∷ s) seen =
    if c == b'/' then trim_slashes s (c ∷ seen) else seen ++ c ∷ trim_slashes s []

-- The defaults of `registerCommon`.
unfoldable pub common_defaults : CommonFlags
common_defaults = record {
  url = [];
  headers = [];
  token_file = [];
  token_header = [];
  timeout = pos (30 * second);
  insecure = false;
  output = codes "table";
}

module _ {W : Type 0} (o : Outside W) where
  unfoldable pub connection_of : CommonFlags → Answer (List (Bytes × Bytes)) → Answer Connection
  unfolding trim_slashes
  connection_of c (refused e) = refused e
  connection_of c (got hs) = got (record {
    base = trim_slashes c.url [];
    headers = hs;
    timeout = c.timeout;
    insecure = c.insecure;
    check_redirect = some (λ next via. some use_last_response);
  })

  unfoldable pub new_client : CommonFlags → Answer Connection
  unfolding check_flags client_headers connection_of
  new_client c = elim (check_flags o.quoted c) [
    | some e ↦ refused e
    | none ↦ connection_of c (client_headers o.canonical o.read_file c)
  ]

  unfoldable pub request_url : Connection → Bytes → List (Bytes × Bytes) → Bytes
  request_url cl path [] = cl.base ++ path
  request_url cl path (v ∷ vs) = cl.base ++ path ++ codes "?" ++ o.encode (v ∷ vs)

  -- What `getJSON` makes of what `Do` returns.
  answered : {A : Type 0} → (Bytes → Answer A) → Bytes ⊎ HttpResponse → Answer A
  unfolding read_response
  answered decode (inl msg) = refused (other msg)
  answered decode (inr r) = read_response decode r.status r.status_text r.body

  unfoldable pub get_json :
      {A : Type 0}
      → (Bytes → Answer A)
      → W
      → Connection
      → Bytes
      → List (Bytes × Bytes)
      → W × Answer A
  unfolding request_url answered set_value
  get_json decode w cl path q = elim (o.new_request (request_url cl path q)) [
    | some msg ↦ (w, refused (other msg))
    | none ↦
        let (w', reply) =
          o.send w cl (request_url cl path q)
            (set_value o.canonical (codes "Accept") (codes "application/json") cl.headers) in
        (w', answered decode reply)
  ]

  unfoldable pub get_query :
      (Bytes → Answer QueryDetail) → W → Connection → Bytes → W × Answer QueryDetail
  unfolding get_json
  get_query decode w cl id = get_json decode w cl (codes "/api/v1/queries/" ++ o.path_escape id) []
