-- ===== src/Server/Ingest/Described.antt =====
-- internal/server/ingest.go: the events that `handleIngest` accepts and the rows that it makes of them, described without
-- its tests.
use mathlib.Core.Path.{subst}
use trino_log_sink.Base.{
  Bool, Bool-cases, Bytes, List, Option, Option-cases, [], ap, arith, bytes_eq, bytes_eq→eq, codes,
  false, inl, inr, is_empty, leb_ℤ, ltb_ℤ, none, pos, refl, some, sym, true, ℕ, ℤ, ◌<◌, ◌||◌, ◌∙◌,
  ◌∷◌, ◌≡◌, ◌≢◌, ◌⊎◌,
}
use trino_log_sink.Event.{
  Event, FailureInfo, InputMetadata, InvalidEvent, Time, deref, source_value, validate,
  validate_create_time,
}
use trino_log_sink.Store.Row.{Row}
use trino_log_sink.Store.FromEvent.{PlanPolicy, failure_fields, keeps_plans, millis, row_from_event}
use trino_log_sink.Server.Ingest.{Settings, stored_row}
use trino_log_sink.Store.Truncate.{truncate}
use trino_log_sink.Server.Ingest.Rows.{stored_row-kept, stored_row-plans}

is_empty-cases : (s : Bytes) → ((is_empty s ≡ true) × (s ≡ [])) ⊎ ((is_empty s ≡ false) × (s ≢ []))
unfolding is_empty
is_empty-cases [] = inl (refl, refl)
is_empty-cases (c ∷ s) = inr (refl, λ h. cc)

-- The source of an event; an absent one is empty.
pub data HasSource (e : Event) : Bytes → Type 0 where
  given_source : {s : Bytes} → e.context.source ≡ some s → HasSource e s
  no_source : e.context.source ≡ none → HasSource e []

-- An event with a query id and a create time.
pub record IsComplete (e : Event) : Type 0 where
  pub query_id_given : e.metadata.query_id ≢ []
  pub create_time_given : (t : Time) × (e.create_time ≡ some t)

-- The plans of an event are dropped: always with the policy `none`, and with `slow_or_failed` if the query has not failed
-- and has taken fewer milliseconds than the policy asks for.
pub data DropsPlans (p : PlanPolicy) (e : Event) : Type 0 where
  never_kept : p.capture ≡ codes "none" → DropsPlans p e
  fast_success :
      p.capture ≡ codes "slow_or_failed"
      → e.failure_info ≡ none
      → ltb_ℤ (millis e.statistics.wall_time) (millis p.min_wall) ≡ true
      → DropsPlans p e

-- The plans of an event are kept: with every other policy, and with `slow_or_failed` if the query has failed with an error
-- that has a name, or has taken at least the milliseconds that the policy asks for.
pub data KeepsPlans (p : PlanPolicy) (e : Event) : Type 0 where
  always_kept : p.capture ≢ codes "none" → p.capture ≢ codes "slow_or_failed" → KeepsPlans p e
  slow :
      p.capture ≡ codes "slow_or_failed"
      → leb_ℤ (millis p.min_wall) (millis e.statistics.wall_time) ≡ true
      → KeepsPlans p e
  failed :
      {f : FailureInfo}
      → p.capture ≡ codes "slow_or_failed"
      → e.failure_info ≡ some f
      → f.error_code.name ≢ []
      → KeepsPlans p e

bytes_eq-≢ : (s t : Bytes) → s ≢ t → bytes_eq s t ≡ false
bytes_eq-≢ s t h = elim (Bool-cases (bytes_eq s t)) [
  | inl b ↦ absurd (h (bytes_eq→eq s t b))
  | inr b ↦ b
]

or_right : (a b : Bool) → b ≡ true → (a || b) ≡ true
or_right a b h = ground arith

not-leb_ℤ : (a b : ℤ) → ltb_ℤ a b ≡ true → leb_ℤ b a ≡ false
not-leb_ℤ a b h = ground arith

pub invalid-cases :
    (e : Event) (x : InvalidEvent)
    → validate e ≡ some x
    → (e.metadata.query_id ≡ []) ⊎ (e.create_time ≡ none)
unfolding validate
invalid-cases e x h = elim (is_empty-cases e.metadata.query_id) [
  | inl (a, p) ↦ inl p
  | inr (a, p) ↦ inr (elim (Option-cases e.create_time) [
    | inl q ↦ q
    | inr (t, q) ↦ let k = rw (a, q, validate_create_time) at h in cc
  ])
]

pub valid-IsComplete : (e : Event) → validate e ≡ none → IsComplete e
unfolding validate
valid-IsComplete e h = elim (is_empty-cases e.metadata.query_id) [
  | inl (a, p) ↦ let k = rw a at h in cc
  | inr (a, p) ↦ elim (Option-cases e.create_time) [
    | inl q ↦ let k = rw (a, q, validate_create_time) at h in cc
    | inr (t, q) ↦ record { query_id_given = p; create_time_given = (t, q) }
  ]
]

pub source_value-HasSource : (e : Event) (s : Bytes) → source_value e ≡ s → HasSource e s
unfolding source_value
source_value-HasSource e s h = elim (Option-cases e.context.source) [
  | inl a ↦ subst (HasSource e) (sym (ap deref a) ∙ h) (no_source a)
  | inr (t, a) ↦ subst (HasSource e) (sym (ap deref a) ∙ h) (given_source a)
]

pub HasSource-source_value : (e : Event) (s : Bytes) → HasSource e s → source_value e ≡ s
unfolding source_value deref
HasSource-source_value e s (given_source h) = rw h refl
HasSource-source_value e [] (no_source h) = rw h refl

module _ (marshal : List InputMetadata → Option Bytes) (cfg : Settings) where
  -- The row of an event, without plans where the policy drops them.
  pub record IsRowOf (e : Event) (r : Row) : Type 0 where
    pub same_row : r ≡ stored_row marshal cfg e
    pub plans_dropped : DropsPlans cfg.plan_policy e → (r.plan ≡ []) × (r.json_plan ≡ [])
    pub plans_kept :
        KeepsPlans cfg.plan_policy e
        → (r.plan ≡ truncate (deref e.metadata.plan) cfg.max_field_bytes)
          × (r.json_plan ≡ truncate (deref e.metadata.json_plan) cfg.max_field_bytes)

  DropsPlans-keeps_plans :
      (e : Event)
      → DropsPlans cfg.plan_policy e
      → keeps_plans (row_from_event marshal e) cfg.plan_policy ≡ false
  unfolding keeps_plans row_from_event failure_fields
  DropsPlans-keeps_plans e (never_kept h) = rw h refl
  DropsPlans-keeps_plans e (fast_success h f l) =
      rw (h, f) (not-leb_ℤ (millis e.statistics.wall_time) (millis cfg.plan_policy.min_wall) l)

  KeepsPlans-keeps_plans :
      (e : Event)
      → KeepsPlans cfg.plan_policy e
      → keeps_plans (row_from_event marshal e) cfg.plan_policy ≡ true
  unfolding keeps_plans row_from_event failure_fields
  KeepsPlans-keeps_plans e (always_kept h k) = rw (bytes_eq-≢ _ _ h, bytes_eq-≢ _ _ k) refl
  KeepsPlans-keeps_plans e (slow h l) = rw h (or_right _ _ l)
  KeepsPlans-keeps_plans e (failed {f} h k n) = elim (is_empty-cases f.error_code.name) [
    | inl (a, p) ↦ absurd (n p)
    | inr (a, p) ↦ rw (h, k, a) refl
  ]

  module _ (n : ℕ) (capped : cfg.max_field_bytes ≡ pos n) (positive : 0 < n) where
    pub row-IsRowOf : (e : Event) (r : Row) → r ≡ stored_row marshal cfg e → IsRowOf e r
    row-IsRowOf e r h = record {
      same_row = h;
      plans_dropped = λ d.
          let (p, j) =
            stored_row-plans marshal cfg e n capped positive (DropsPlans-keeps_plans e d) in
          (ap (λ x. x.plan) h ∙ p, ap (λ x. x.json_plan) h ∙ j);
      plans_kept = λ d.
          let (p, j) =
            stored_row-kept marshal cfg e n capped positive (KeepsPlans-keeps_plans e d) in
          (
            ap (λ x. x.plan) h ∙ p ∙ ap (truncate (deref e.metadata.plan)) (sym capped),
            ap (λ x. x.json_plan) h ∙ j ∙ ap (truncate (deref e.metadata.json_plan)) (sym capped),
          );
    }
