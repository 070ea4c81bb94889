-- ===== src/Store/Cache/Coherence.antt =====
-- Reads through the cache give rows that the store has given for the query id that is asked for.
use mathlib.Core.Path.{subst}
use trino_log_sink.Base.{
  Bytes, List, Option, Option-cases, ap, inl, inr, none, refl, some, sym, ◌∙◌, ◌∷◌, ◌≡◌, ◌⊎◌,
}
use trino_log_sink.Event.{Duration}
use trino_log_sink.Store.Row.{Row}
use trino_log_sink.Store.Errors.{Error}
use trino_log_sink.Store.Cache.{
  CacheCall, Client, Codec, Fetched, Reading, answered, asked, cache_error, cache_hit, failed,
  fetched, get_cached, get_query, hit, miss, query_key, set_cached,
}

query_key-injective : (a b : Bytes) → query_key a ≡ query_key b → a ≡ b
unfolding query_key
query_key-injective a b h = cc

-- What is documented of the cache: `content` is what it holds; reading and asking the store add
-- nothing, so that entries may expire at any time; a hit is what is held; and writing adds at most
-- the entry that is written. `Given id r` says that the store has given `r` for `id`.
pub record Laws {W : Type 0} (client : Client W) (codec : Codec Row)
    (store : W → Bytes → W × Option Row × Option Error) (content : W → Bytes → Option Bytes)
    (Given : Bytes → Row → Type 0) : Type 0 where
  pub get_adds_nothing :
      (w : W) (k l b : Bytes) → content (client.get w k).0 l ≡ some b → content w l ≡ some b
  pub get_hit : (w : W) (k b : Bytes) → (client.get w k).1 ≡ hit b → content w k ≡ some b
  pub set_adds_entry :
      (w : W) (k v : Bytes) (t : Duration) (l b : Bytes)
      → content (client.set w k v t).0 l ≡ some b
      → (content w l ≡ some b) ⊎ ((l ≡ k) × (b ≡ v))
  pub store_adds_nothing :
      (w : W) (id l b : Bytes) → content (store w id).0 l ≡ some b → content w l ≡ some b
  pub store_gives :
      (w : W) (id : Bytes) (r : Row) → (store w id).1 ≡ some r → (store w id).2 ≡ none → Given id r
  pub decode_encode :
      (id : Bytes) (r : Row) (b : Bytes)
      → Given id r
      → codec.encode r ≡ some b
      → codec.decode b ≡ some r

module _ {W : Type 0} (client : Client W) (codec : Codec Row)
    (store : W → Bytes → W × Option Row × Option Error) (query_ttl : Duration)
    (content : W → Bytes → Option Bytes) (Given : Bytes → Row → Type 0)
    (laws : Laws client codec store content Given) where
  -- Every entry under the key of a query id that can be decoded is a row that the store has given.
  abbrev pub IsCoherent : W → Type 0
  IsCoherent w =
      (id b : Bytes) (r : Row)
      → content w (query_key id) ≡ some b
      → codec.decode b ≡ some r
      → Given id r

  -- A read that gives a row gives one that the store has given, and leaves a coherent cache.
  pub record IsSound (id : Bytes) (a : Reading W × Option Row × Option Error) : Type 0 where
    pub leaves_coherent : IsCoherent a.0.0
    pub gives_given : (r : Row) → a.1 ≡ some r → a.2 ≡ none → Given id r

  some_eq : {A : Type 0} (a b : A) → some a ≡ some b → a ≡ b
  some_eq a b h = cc

  set_cached-IsCoherent :
      (w : W) (calls : List CacheCall) (id : Bytes) (r : Row)
      → Given id r
      → IsCoherent w
      → IsCoherent (set_cached client codec (w, calls) (query_key id) r query_ttl).0
  unfolding set_cached
  set_cached-IsCoherent w calls id r g coherent = elim (Option-cases (codec.encode r)) [
    | inl p ↦ rw (p, set_cached) coherent
    | inr (v, p) ↦
        let after : IsCoherent (client.set w (query_key id) v query_ttl).0 = λ id' b r' held dec.
          elim (laws.set_adds_entry w (query_key id) v query_ttl (query_key id') b held) [
            | inl old ↦ coherent id' b r' old dec
            | inr (k, e) ↦
                let same : r ≡ r' =
                  some_eq r r'
                    (sym (laws.decode_encode id r v g p) ∙ ap codec.decode (sym e) ∙ dec) in
                subst (λ x. Given x r') (sym (query_key-injective id' id k))
                  (subst (λ x. Given id x) same g)
          ] in
        elim (Option-cases (client.set w (query_key id) v query_ttl).1) [
          | inl q ↦ rw (p, q, set_cached) after
          | inr (x, q) ↦ rw (p, q, set_cached) after
        ]
  ]

  answered-IsSound :
      (w : W) (calls : List CacheCall) (id : Bytes) (got : Option Row) (err : Option Error)
      → IsCoherent w
      → ((r : Row) → got ≡ some r → err ≡ none → Given id r)
      → IsSound id (answered client codec store query_ttl (w, calls) id got err)
  unfolding answered
  answered-IsSound w calls id got (some x) coherent given = record {
    leaves_coherent = coherent;
    gives_given = λ r h e. cc;
  }
  answered-IsSound w calls id none none coherent given = record {
    leaves_coherent = coherent;
    gives_given = λ r h e. cc;
  }
  answered-IsSound w calls id (some r) none coherent given = record {
    leaves_coherent = set_cached-IsCoherent w calls id r (given r refl refl) coherent;
    gives_given = given;
  }

  asked-IsSound :
      (w : W) (calls : List CacheCall) (id : Bytes)
      → IsCoherent w
      → IsSound id (asked client codec store query_ttl (w, calls) id)
  unfolding asked
  asked-IsSound w calls id coherent =
      answered-IsSound (store w id).0 calls id (store w id).1 (store w id).2
        (λ id' b r held dec.
          coherent id' b r (laws.store_adds_nothing w id (query_key id') b held) dec)
        (λ r h e. laws.store_gives w id r h e)

  -- What `get_query` does with what was fetched.
  abbrev chosen : Bytes → Reading W × Option Row → Reading W × Option Row × Option Error
  chosen id (s, some r) = (s, some r, none)
  chosen id (s, none) = asked client codec store query_ttl s id

  fetched_undecoded :
      (w : W) (calls : List CacheCall) (b : Bytes)
      → codec.decode b ≡ none
      → fetched client codec (w, calls) (hit b) ≡ ((w, cache_error ∷ calls), none)
  unfolding fetched
  fetched_undecoded w calls b p = rw (p, fetched)

  fetched_decoded :
      (w : W) (calls : List CacheCall) (b : Bytes) (r : Row)
      → codec.decode b ≡ some r
      → fetched client codec (w, calls) (hit b) ≡ ((w, cache_hit ∷ calls), some r)
  unfolding fetched
  fetched_decoded w calls b r p = rw (p, fetched)

  fetched-IsSound :
      (w w' : W) (calls : List CacheCall) (id : Bytes) (f : Fetched)
      → IsCoherent w
      → IsCoherent w'
      → ((b : Bytes) → f ≡ hit b → content w (query_key id) ≡ some b)
      → IsSound id (chosen id (fetched client codec (w', calls) f))
  unfolding fetched
  fetched-IsSound w w' calls id miss coherent after held = asked-IsSound w' _ id after
  fetched-IsSound w w' calls id failed coherent after held = asked-IsSound w' _ id after
  fetched-IsSound w w' calls id (hit b) coherent after held = elim (Option-cases (codec.decode b)) [
    | inl p ↦
        subst (λ sf. IsSound id (chosen id sf)) (sym (fetched_undecoded w' calls b p))
          (asked-IsSound w' (cache_error ∷ calls) id after)
    | inr (r, p) ↦
        subst (λ sf. IsSound id (chosen id sf)) (sym (fetched_decoded w' calls b r p))
          (record {
            leaves_coherent = after;
            gives_given = λ r' h e. coherent id b r' (held b refl) (p ∙ h);
          })
  ]

  -- Over a cache that only holds what was written to it, whatever it loses or fails to return, and a
  -- coding that reads back the rows that the store gives: a row that `GetQuery` gives for a query id is
  -- one that the store has given for it, and a coherent cache stays coherent.
  pub get_query-IsSound :
      (s : Reading W) (id : Bytes)
      → IsCoherent s.0
      → IsSound id (get_query client codec store query_ttl s id)
  unfolding get_query get_cached
  get_query-IsSound (w, calls) id coherent =
      fetched-IsSound w (client.get w (query_key id)).0 calls id (client.get w (query_key id)).1
        coherent
        (λ id' b r held dec.
          coherent id' b r (laws.get_adds_nothing w (query_key id) (query_key id') b held) dec)
        (λ b h. laws.get_hit w (query_key id) b h)
