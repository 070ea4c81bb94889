-- ===== src/Server/Ingest/Rows.antt =====
-- What holds of every row that `handleIngest` hands to the buffer.
use trino_log_sink.Base.{
  All, All-append, Bytes, List, Option, [], arith, false, length, min, pos, refl, replicate, ℕ, ◌<◌,
  ◌^◌, ◌∷◌, ◌≡◌, ◌≤◌, true,
}
use trino_log_sink.Event.{Event, InputMetadata, deref}
use trino_log_sink.Store.Row.{Row}
use trino_log_sink.Store.Truncate.{
  large_fields, max_small_field_bytes, small_fields, string_fields, truncate, truncate_fields,
  truncate_large, truncate_small,
}
use trino_log_sink.Store.Truncate.Bounds.{truncate_fields_bounds, truncate_short}
use trino_log_sink.Store.FromEvent.{apply_plan_policy, keeps_plans, row_from_event, with_preview}
use trino_log_sink.Store.Trino.Largest.{Bounded}
use trino_log_sink.Store.Trino.Fits.{IsAddressable}
use trino_log_sink.Server.Ingest.{Settings, stored_row}

module _ (marshal : List InputMetadata → Option Bytes) (cfg : Settings) where
  stored_row-caps :
      (e : Event) (n : ℕ)
      → cfg.max_field_bytes ≡ pos n
      → 0 < n
      → All (λ s. length s ≤ n) (large_fields (stored_row marshal cfg e))
        × All
            (λ s. length s ≤ min n max_small_field_bytes)
            (small_fields (stored_row marshal cfg e))
  unfolding stored_row
  stored_row-caps e n h p = rw h (truncate_fields_bounds _ n p)

  below : (n k : ℕ) → n < k → (s : Bytes) → length s ≤ n → length s < k
  below n k h s p = omega arith

  -- Texts within a cap are below a power of two above it.
  Bounded-All :
      (n k : ℕ) (fs : List Bytes)
      → n < 2 ^ k
      → All (λ s. length s ≤ n) fs
      → Bounded fs (replicate (length fs) k)
  Bounded-All n k [] h p = tt
  Bounded-All n k (f ∷ fs) h (p, ps) = (below n (2 ^ k) h f p, Bounded-All n k fs h ps)

  All-min :
      (n m : ℕ) (fs : List Bytes) → All (λ s. length s ≤ min n m) fs → All (λ s. length s ≤ n) fs
  All-min n m [] h = tt
  All-min n m (f ∷ fs) (p, h) = (omega arith, All-min n m fs h)

  length-string_fields : (r : Row) → length (string_fields r) ≡ 21
  unfolding string_fields
  length-string_fields r = refl

  -- With a positive `MAX_FIELD_BYTES` below 2 ^ 47, every text of a stored row is shorter than 2 ^ 47
  -- bytes.
  pub stored_row-IsAddressable :
      (e : Event) (n : ℕ)
      → cfg.max_field_bytes ≡ pos n
      → 0 < n
      → n < 2 ^ 47
      → IsAddressable (stored_row marshal cfg e)
  unfolding string_fields
  stored_row-IsAddressable e n h p q =
      let r = stored_row marshal cfg e in
      let (large, small) = stored_row-caps e n h p in
      Bounded-All n 47 (string_fields r) q (
        All-append (λ s. length s ≤ n) (large_fields r) (small_fields r) large
          (All-min n max_small_field_bytes (small_fields r) small))

  truncate_nothing : (n : ℕ) → truncate [] (pos n) ≡ []
  truncate_nothing n = truncate_short [] (pos n) (omega arith)

  -- With a positive `MAX_FIELD_BYTES`, an event whose row the policy does not keep the plans of is stored
  -- with both plans empty.
  pub stored_row-plans :
      (e : Event) (n : ℕ)
      → cfg.max_field_bytes ≡ pos n
      → 0 < n
      → keeps_plans (row_from_event marshal e) cfg.plan_policy ≡ false
      → ((stored_row marshal cfg e).plan ≡ []) × ((stored_row marshal cfg e).json_plan ≡ [])
  unfolding stored_row truncate_fields apply_plan_policy with_preview truncate_large truncate_small
  stored_row-plans e n h p k = ground (arith, truncate_nothing n)

  -- With a positive `MAX_FIELD_BYTES`, an event whose row the policy keeps the plans of is stored with both, cut to the cap.
  pub stored_row-kept :
      (e : Event) (n : ℕ)
      → cfg.max_field_bytes ≡ pos n
      → 0 < n
      → keeps_plans (row_from_event marshal e) cfg.plan_policy ≡ true
      → ((stored_row marshal cfg e).plan ≡ truncate (deref e.metadata.plan) (pos n))
        × ((stored_row marshal cfg e).json_plan ≡ truncate (deref e.metadata.json_plan) (pos n))
  unfolding stored_row truncate_fields apply_plan_policy with_preview truncate_large truncate_small
      row_from_event
  stored_row-kept e n h p k = ground arith
