-- ===== src/Client/Request.antt =====
-- internal/querycli/client.go and list.go: the checks of `newClient`, the parameters of `list`, and what
-- `getJSON` makes of the status of a response.
use trino_log_sink.Base.{
  Bool, Bytes, List, Option, [], bytes_eq, codes, count_byte, if◌then◌else◌, inl, inr, is_empty,
  itoa, ltb, max_ℤ, min_ℤ, none, not, pos, some, take, trim_space, ℕ, ℤ, ◌&&◌, ◌++◌, ◌/◌, ◌==◌,
  ◌||◌, ◌∷◌, ◌⊎◌,
}
use trino_log_sink.Client.{Answer, Failure, got, not_found, other, refused}
use trino_log_sink.Event.{Duration}

pub record CommonFlags : Type 0 where
  pub url : Bytes
  pub headers : List Bytes
  pub token_file : Bytes
  pub token_header : Bytes
  pub timeout : Duration
  pub insecure : Bool
  pub output : Bytes

-- `headerList.Set`; `quoted` is the form `%q` of a text.
has_colon : Bytes → Bool
has_colon s = ltb 0 (count_byte b':' s)

module _ (quoted : Bytes → Bytes) where
  unfoldable pub set_header : List Bytes → Bytes → Answer (List Bytes)
  unfolding has_colon count_byte
  set_header headers v =
      if has_colon v
      then got (headers ++ v ∷ [])
      else refused (other (codes "header must be in \"Key: Value\" form: " ++ quoted v))

  -- The checks before the headers.
  unfoldable pub check_flags : CommonFlags → Option Failure
  unfolding trim_space is_empty bytes_eq
  check_flags c =
      if is_empty (trim_space c.url)
      then some (other (codes "--url is required"))
      else if not (bytes_eq c.output (codes "table") || bytes_eq c.output (codes "json"))
      then some (other (codes "--output must be \"table\" or \"json\", got " ++ quoted c.output))
      else if not (is_empty c.token_header) && is_empty c.token_file
      then some (other (codes "--token-header requires --token-file"))
      else none

-- `strings.Cut(s, ":")`
unfoldable pub cut : Bytes → Bytes × Bytes
cut [] = ([], [])
cut (c ∷ s) = let (k, v) = cut s in if c == b':' then ([], s) else (c ∷ k, v)

-- The headers in the order in which they are added; `canonical` is the form of a header's name.
module _ (canonical : Bytes → Bytes) where
  unfoldable pub add_headers : List Bytes → List (Bytes × Bytes)
  unfolding cut trim_space
  add_headers [] = []
  add_headers (raw ∷ raws) =
      let (k, v) = cut raw in (canonical (trim_space k), trim_space v) ∷ add_headers raws

  without : Bytes → List (Bytes × Bytes) → List (Bytes × Bytes)
  unfolding bytes_eq
  without name [] = []
  without name ((k, v) ∷ hs) = if bytes_eq k name then without name hs else (k, v) ∷ without name hs

  -- `Header.Set`: the values of the name are replaced.
  unfoldable pub set_value : Bytes → Bytes → List (Bytes × Bytes) → List (Bytes × Bytes)
  unfolding without
  set_value name v hs = without (canonical name) hs ++ (canonical name, v) ∷ []

  -- The headers of a client; `read` is `os.ReadFile`, whose error
  -- has a text.
  unfoldable pub client_headers :
      (Bytes → Bytes ⊎ Bytes) → CommonFlags → Answer (List (Bytes × Bytes))
  unfolding add_headers set_value trim_space is_empty
  client_headers read c =
      if is_empty c.token_file then got (add_headers c.headers) else elim (read c.token_file) [
        | inl msg ↦ refused (other (codes "read token file: " ++ msg))
        | inr b ↦
            if is_empty (trim_space b)
            then refused (other (codes "token file " ++ c.token_file ++ codes " is empty"))
            else if is_empty c.token_header
            then got (
                set_value (codes "Authorization") (codes "Bearer " ++ trim_space b)
                  (add_headers c.headers))
            else got (set_value c.token_header (trim_space b) (add_headers c.headers))
      ]

pub record ListFlags : Type 0 where
  pub range : Bytes
  pub user : Bytes
  pub catalog : Bytes
  pub state : Bytes
  pub sort : Bytes
  pub desc : Bool
  pub limit : ℤ
  pub offset : ℤ

unfoldable pub list_limit : ℤ → ℤ
list_limit n = min_ℤ (max_ℤ n (pos 1)) (pos 500)

unfoldable pub list_offset : ℤ → ℤ
list_offset n = max_ℤ n (pos 0)

unfoldable pub given : Bytes → Bytes → List (Bytes × Bytes) → List (Bytes × Bytes)
unfolding is_empty
given key v q = if is_empty v then q else (key, v) ∷ q

-- The query parameters of the request.
unfoldable pub list_values : ListFlags → List (Bytes × Bytes)
unfolding given list_limit list_offset itoa
list_values f =
    (codes "range", f.range)
    ∷ given (codes "user") f.user (
        given (codes "catalog") f.catalog (
          given (codes "state") f.state (
            (codes "sort", f.sort)
            ∷ (codes "dir", if f.desc then codes "desc" else codes "asc")
            ∷ (codes "limit", itoa (list_limit f.limit))
            ∷ (codes "offset", itoa (list_offset f.offset))
            ∷ [])))

-- The body of a response with a status; `decode` is the JSON decoder.
unfoldable pub read_response : {A : Type 0} → (Bytes → Answer A) → ℕ → Bytes → Bytes → Answer A
unfolding trim_space is_empty
read_response decode status status_text body =
    if status == 404
    then refused not_found
    else if status / 100 == 2
    then decode (take 67_108_864 body)
    else if is_empty (trim_space (take 512 body))
    then refused (other (codes "server returned " ++ status_text))
    else refused (
        other (codes "server returned " ++ status_text ++ codes ": " ++ trim_space (take 512 body)))
