-- ===== src/Tests/Caching.antt =====
-- The theorem on the read-through cache, on a cache of one entry over a store of one row.
use trino_log_sink.Base.{
  Bool-cases, Bytes, Option, [], ap, bytes_eq, bytes_eq→eq, codes, if◌then◌else◌, inl, inr, none,
  pos, some, sym, ◌≡◌,
}
use trino_log_sink.Store.Row.{Row}
use trino_log_sink.Store.Errors.{Error}
use trino_log_sink.Store.Cache.{Client, Codec, Fetched, get_query, hit, miss}
use trino_log_sink.Store.Cache.Coherence.{IsCoherent, IsSound, Laws, get_query-IsSound}
use trino_log_sink.Tests.Samples.{row_a}

-- The entry that the cache holds.
abbrev Entry : Type 0
Entry = Option (Bytes × Bytes)

entry_at : Entry → Bytes → Option Bytes
entry_at none k = none
entry_at (some (l, b)) k = if bytes_eq l k then some b else none

found : Option Bytes → Fetched
found none = miss
found (some b) = hit b

one_entry : Client Entry
unfolding found entry_at bytes_eq
one_entry = record { get = λ w k. (w, found (entry_at w k)); set = λ w k v t. (some (k, v), none) }

-- The coding of the one row of the test's store.
one_code : Codec Row
one_code = record { encode = λ r. some (codes "row"); decode = λ b. some row_a }

only_row : Entry → Bytes → Entry × Option Row × Option Error
only_row w id = (w, some row_a, none)

abbrev Given : Bytes → Row → Type 0
Given id r = r ≡ row_a

found-hit : (o : Option Bytes) (b : Bytes) → found o ≡ hit b → o ≡ some b
unfolding found
found-hit none b h = cc
found-hit (some a) b h = cc

entry_at-set : (k v l b : Bytes) → entry_at (some (k, v)) l ≡ some b → (l ≡ k) × (b ≡ v)
unfolding entry_at
entry_at-set k v l b h = elim (Bool-cases (bytes_eq k l)) [
  | inl e ↦ let h' = rw e at h in let same : v ≡ b = cc in (sym (bytes_eq→eq k l e), sym same)
  | inr e ↦ let h' = rw e at h in cc
]

one_entry-Laws : Laws one_entry one_code only_row entry_at Given
unfolding one_entry one_code only_row
one_entry-Laws = record {
  get_adds_nothing = λ w k l b h. h;
  get_hit = λ w k b h. found-hit (entry_at w k) b h;
  set_adds_entry = λ w k v t l b h. inr (entry_at-set k v l b h);
  store_adds_nothing = λ w id l b h. h;
  store_gives = λ w id r g e. let same : row_a ≡ r = cc in sym same;
  decode_encode = λ id r b g h. ap some (sym g);
}

empty-IsCoherent :
    IsCoherent one_entry one_code only_row (pos 60) entry_at Given one_entry-Laws none
unfolding entry_at
empty-IsCoherent id b r held dec = cc

get_query-IsSound_example :
    IsSound one_entry one_code only_row
      (pos 60)
      entry_at
      Given
      one_entry-Laws
      (codes "a")
      (get_query one_entry one_code only_row (pos 60) (none, []) (codes "a"))
get_query-IsSound_example =
    get_query-IsSound one_entry one_code only_row (pos 60) entry_at Given one_entry-Laws (none, [])
      (codes "a") empty-IsCoherent
