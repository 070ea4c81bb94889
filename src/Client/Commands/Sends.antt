-- ===== src/Client/Commands/Sends.antt =====
-- internal/querycli/list.go and client.go: the request that `query list` sends, and when it sends none.
use trino_log_sink.Client.Request.{CommonFlags, ListFlags, list_values, set_value}
use trino_log_sink.Client.Connection.{
  Connection, Outside, RedirectError, new_client, use_last_response,
}
use trino_log_sink.Base.{Bytes, List, Option, [], codes, some, ◌++◌, ◌∷◌, ◌≡◌, ◌⊎◌}
use trino_log_sink.Client.{Failure, got}

abbrev pub Headers : Type 0
Headers = List (Bytes × Bytes)

module _ {W : Type 0} (o : Outside W) where
  -- A redirect policy that stops at the first redirect, wherever it leads.
  pub record StopsAtRedirect (cl : Connection) : Type 0 where
    pub check : Bytes → List Bytes → Option RedirectError
    pub is_policy : cl.check_redirect ≡ some check
    pub stops : (next : Bytes) (via : List Bytes) → check next via ≡ some use_last_response

  -- The requests that were sent, with their headers, as a part of the world. The documentation of net/http: with a
  -- policy that returns `ErrUseLastResponse`, `Do` returns the first response, a redirect too, and sends nothing
  -- after it. With another policy it may send more requests, and nothing is said of it.
  pub record Records (sent : W → List (Bytes × Headers)) : Type 0 where
    pub send_adds :
        (w : W) (cl : Connection) (url : Bytes) (hs : Headers)
        → StopsAtRedirect cl
        → sent (o.send w cl url hs).0 ≡ sent w ++ (url, hs) ∷ []
    pub write_keeps : (w : W) (s : Bytes) → sent (o.write w s) ≡ sent w

  module _ (sent : W → List (Bytes × Headers)) (records : Records sent) where
    -- The headers of a request: those of the connection, and the wish for JSON.
    abbrev pub request_headers : Connection → Headers
    request_headers cl =
        set_value o.canonical (codes "Accept") (codes "application/json") cl.headers

    -- The request for the listing that the flags ask for: its address, and its headers.
    abbrev pub Asks : CommonFlags → ListFlags → Bytes × Headers → Type 0
    Asks common flags (url, hs) =
        (cl : Connection) × (new_client o common ≡ got cl)
        × (url ≡ cl.base ++ codes "/api/v1/queries" ++ codes "?" ++ o.encode (list_values flags))
        × (hs ≡ request_headers cl)

    abbrev pub SendsListing : W → CommonFlags → ListFlags → W × Option Failure → Type 0
    SendsListing w common flags r =
        ((sent r.0 ≡ sent w) × ((e : Failure) × (r.1 ≡ some e)))
        ⊎ ((q : Bytes × Headers) × Asks common flags q × (sent r.0 ≡ sent w ++ q ∷ []))
