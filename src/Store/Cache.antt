-- ===== src/Store/Cache.antt =====
-- internal/store/cache.go: the read-through cache over `GetQuery`. The cache client, the JSON encoding of
-- a row and the store behind the cache are arguments.
pub mod Coherence
pub mod Listing
use trino_log_sink.Base.{Bytes, List, Option, codes, none, some, ◌++◌, ◌∷◌}
use trino_log_sink.Event.{Duration}
use trino_log_sink.Store.Row.{Row}
use trino_log_sink.Store.Errors.{Error}

-- What `Cache.Get` gives: the bytes, `ErrMiss`, or another error.
pub data Fetched : Type 0 where
  hit : Bytes → Fetched
  miss failed : Fetched

-- A call of the `CacheObserver`.
pub data CacheCall : Type 0 where
  cache_hit cache_miss cache_error : CacheCall

pub record Client (W : Type 0) : Type 0 where
  pub get : W → Bytes → W × Fetched
  pub set : W → Bytes → Bytes → Duration → W × Option Error

-- `json.Marshal` and `json.Unmarshal` of a value, with none for an error.
pub record Codec (A : Type 0) : Type 0 where
  pub encode : A → Option Bytes
  pub decode : Bytes → Option A

-- The world, and the calls of the observer, the latest first.
abbrev pub Reading : Type 0 → Type 0
Reading W = W × List CacheCall

-- `queryKey`, with the prefix and the version of the constants.
unfoldable pub query_key : Bytes → Bytes
query_key id = codes "qls:v2:query:" ++ id

module _ {W A : Type 0} (client : Client W) (codec : Codec A) where
  fetched : Reading W → Fetched → Reading W × Option A
  fetched (w, calls) miss = ((w, cache_miss ∷ calls), none)
  fetched (w, calls) failed = ((w, cache_error ∷ calls), none)
  fetched (w, calls) (hit b) = elim (codec.decode b) [
    | none ↦ ((w, cache_error ∷ calls), none)
    | some r ↦ ((w, cache_hit ∷ calls), some r)
  ]

  unfoldable pub get_cached : Reading W → Bytes → Reading W × Option A
  unfolding fetched
  get_cached (w, calls) key = let (w', f) = client.get w key in fetched (w', calls) f

  unfoldable pub set_cached : Reading W → Bytes → A → Duration → Reading W
  set_cached (w, calls) key r ttl = elim (codec.encode r) [
    | none ↦ (w, calls)
    | some b ↦
        let (w', err) = client.set w key b ttl in
        elim err [ none ↦ (w', calls) | some x ↦ (w', cache_error ∷ calls) ]
  ]

module _ {W : Type 0} (client : Client W) (codec : Codec Row)
    (store : W → Bytes → W × Option Row × Option Error) (query_ttl : Duration) where
  -- What `GetQuery` does with the answer of the store.
  answered : Reading W → Bytes → Option Row → Option Error → Reading W × Option Row × Option Error
  unfolding set_cached query_key
  answered s id got (some x) = (s, none, some x)
  answered s id none none = (s, none, none)
  answered s id (some r) none = (set_cached client codec s (query_key id) r query_ttl, some r, none)

  asked : Reading W → Bytes → Reading W × Option Row × Option Error
  unfolding answered
  asked (w, calls) id = let (w', got, err) = store w id in answered (w', calls) id got err

  unfoldable pub get_query : Reading W → Bytes → Reading W × Option Row × Option Error
  unfolding get_cached asked query_key
  get_query s id =
      let (s', found) = get_cached client codec s (query_key id) in
      elim found [ some r ↦ (s', some r, none) | none ↦ asked s' id ]
