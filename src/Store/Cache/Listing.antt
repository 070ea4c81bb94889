-- ===== src/Store/Cache/Listing.antt =====
-- internal/store/cache.go: `ListQueries` through the cache, and `listKey`. The hexadecimal SHA-256 sum and the
-- form `%q` of a text are arguments.
use trino_log_sink.Base.{
  Bytes, List, Option, [], codes, if◌then◌else◌, itoa, join, leb_ℤ, max_ℤ, min_ℤ, negsuc, none, pos,
  pos_part, some, ℕ, ℤ, ◌%◌, ◌++◌, ◌-ℤ◌, ◌-◌, ◌/◌, ◌∷◌, wrap_int64, ◌+ℤ◌,
}
use trino_log_sink.Event.{Duration, Time}
use trino_log_sink.Store.Errors.{Error}
use trino_log_sink.Store.Query.{QueryFilter, QuerySummary}
use trino_log_sink.Store.Cache.{Client, Codec, Reading, get_cached, set_cached}

-- The quotient and the remainder by a positive number, both rounded towards the past.
floor_div : ℤ → ℕ → ℤ
floor_div (pos n) d = pos (n / d)
floor_div (negsuc n) d = negsuc (n / d)

floor_mod : ℤ → ℕ → ℕ
floor_mod (pos n) d = n % d
floor_mod (negsuc n) d = d - 1 - n % d

-- `Time.Truncate`, which leaves the time for a duration that is not positive.
unfoldable pub truncate_time : Time → Duration → Time
unfolding floor_mod
truncate_time t d = if leb_ℤ d (pos 0) then t else t -ℤ pos (floor_mod t (pos_part d))

-- `Time.Sub`, which is held between the least and the largest duration.
unfoldable pub sub_time : Time → Time → Duration
sub_time t u =
    max_ℤ (negsuc 9_223_372_036_854_775_807) (min_ℤ (pos 9_223_372_036_854_775_807) (t -ℤ u))

-- `Time.Unix`.
unfoldable pub unix : Time → ℤ
unfolding floor_div
unix t = floor_div t 1_000_000_000 -ℤ pos 62_135_596_800

module _ (hash quoted : Bytes → Bytes) (list_ttl : Duration) where
  -- The text that is hashed: the window is moved to the last multiple of the time to live.
  unfoldable pub canonical : QueryFilter → Bytes
  unfolding truncate_time sub_time unix itoa
  canonical f =
      let until = truncate_time f.until list_ttl in
      let since = until +ℤ wrap_int64 (pos 0 -ℤ sub_time f.until f.since) in
      join
        (itoa (unix since)
          ∷ itoa (unix until)
          ∷ quoted f.user
          ∷ quoted f.catalog
          ∷ quoted f.state
          ∷ f.sort
          ∷ (if f.desc then codes "true" else codes "false")
          ∷ itoa f.limit
          ∷ itoa f.offset
          ∷ [])
        (codes "|")

  unfoldable pub list_key : QueryFilter → Bytes
  unfolding canonical join
  list_key f = codes "qls:v2:list:" ++ hash (canonical f)

  module _ {W : Type 0} (client : Client W) (codec : Codec (List QuerySummary))
      (store : W → QueryFilter → W × List QuerySummary × Option Error) where
    -- What `ListQueries` does with the answer of the store.
    listed :
        Reading W
        → Bytes
        → List QuerySummary
        → Option Error
        → Reading W × List QuerySummary × Option Error
    unfolding set_cached
    listed s key rows (some e) = (s, [], some e)
    listed s key rows none = (set_cached client codec s key rows list_ttl, rows, none)

    unfoldable pub list_queries :
        Reading W → QueryFilter → Reading W × List QuerySummary × Option Error
    unfolding get_cached listed list_key
    list_queries s f =
        let ((w, calls), found) = get_cached client codec s (list_key f) in
        let (w', rows, err) = store w f in
        elim found [
          | some rows ↦ ((w, calls), rows, none)
          | none ↦ listed (w', calls) (list_key f) rows err
        ]
