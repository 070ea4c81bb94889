-- ===== src/Server/Ingest/Served.antt =====
-- internal/server/ingest.go: what a sequence of requests to `handleIngest` counts, answers and stores.
use trino_log_sink.Base.{
  Bytes, List, Option, [], ap, arith, bytes_eq, bytes_eq_refl, inl, inr, length, none, pos, pos_+ℤ,
  refl, some, suc, sym, wrap_int64, wrap_int64_fits, ℕ, ◌+◌, ◌<◌, ◌^◌, ◌∙◌, ◌∷◌, ◌≡◌, ◌≤◌,
}
use trino_log_sink.Event.{Event, InputMetadata, source_value}
use trino_log_sink.Store.Row.{Row}
use trino_log_sink.Server.Metrics.{
  Metrics, add_int64, invalid_event, received_event, suppressed_event,
}
use trino_log_sink.Server.Ingest.{Response, Settings, serve}
use trino_log_sink.Server.Ingest.Accounting.{
  Accepted, Handled, bad_body, bad_event, handed_over, handle_ingest-Handled, own_event,
}
use trino_log_sink.Server.Ingest.Described.{
  HasSource, HasSource-source_value, IsComplete, IsRowOf, invalid-cases, row-IsRowOf,
  source_value-HasSource, valid-IsComplete,
}

-- The counters of a service whose handler has counted so many events.
abbrev pub with_counts : Metrics → ℕ → ℕ → ℕ → Metrics
with_counts m a b c = record m {
  events_received = pos a;
  events_invalid = pos b;
  events_suppressed = pos c;
}

module _ (marshal : List InputMetadata → Option Bytes) (cfg : Settings) where
  -- `Served requests invalid suppressed answers`.
  pub data Served : List (Option Event) → ℕ → ℕ → List (ℕ × Option Row) → Type 0 where
    all_served : Served [] 0 0 []
    malformed :
        {qs : List (Option Event)} {i s : ℕ} {out : List (ℕ × Option Row)}
        → Served qs i s out
        → Served (none ∷ qs) (suc i) s ((400, none) ∷ out)
    without_id :
        {qs : List (Option Event)} {i s : ℕ} {out : List (ℕ × Option Row)} (e : Event)
        → e.metadata.query_id ≡ []
        → Served qs i s out
        → Served (some e ∷ qs) (suc i) s ((202, none) ∷ out)
    without_time :
        {qs : List (Option Event)} {i s : ℕ} {out : List (ℕ × Option Row)} (e : Event)
        → e.create_time ≡ none
        → Served qs i s out
        → Served (some e ∷ qs) (suc i) s ((202, none) ∷ out)
    own :
        {qs : List (Option Event)} {i s : ℕ} {out : List (ℕ × Option Row)} (e : Event)
        → IsComplete e
        → HasSource e cfg.source
        → Served qs i s out
        → Served (some e ∷ qs) i (suc s) ((202, none) ∷ out)
    stored :
        {qs : List (Option Event)} {i s : ℕ} {out : List (ℕ × Option Row)} (e : Event) (r : Row)
        → IsComplete e
        → ¬ HasSource e cfg.source
        → IsRowOf marshal cfg e r
        → Served qs i s out
        → Served (some e ∷ qs) i s ((202, some r) ∷ out)

  count_one : (a : ℕ) → suc a < 2 ^ 63 → add_int64 (pos a) (pos 1) ≡ pos (suc a)
  unfolding add_int64
  count_one a h =
      ap wrap_int64 (pos_+ℤ a 1)
      ∙ wrap_int64_fits (pos (a + 1)) (omega arith)
      ∙ ap pos (omega arith)

  received_event-counts :
      (m : Metrics) (a b c : ℕ)
      → suc a < 2 ^ 63
      → received_event (with_counts m a b c) ≡ with_counts m (suc a) b c
  unfolding received_event
  received_event-counts m a b c h =
      ap (λ x. record (with_counts m a b c) { events_received = x }) (count_one a h)

  invalid_event-counts :
      (m : Metrics) (a b c : ℕ)
      → suc b < 2 ^ 63
      → invalid_event (with_counts m a b c) ≡ with_counts m a (suc b) c
  unfolding invalid_event
  invalid_event-counts m a b c h =
      ap (λ x. record (with_counts m a b c) { events_invalid = x }) (count_one b h)

  suppressed_event-counts :
      (m : Metrics) (a b c : ℕ)
      → suc c < 2 ^ 63
      → suppressed_event (with_counts m a b c) ≡ with_counts m a b (suc c)
  unfolding suppressed_event
  suppressed_event-counts m a b c h =
      ap (λ x. record (with_counts m a b c) { events_suppressed = x }) (count_one c h)

  -- What a sequence of requests has done to the counters a, b and c.
  pub record Result (m : Metrics) (a b c : ℕ) (qs : List (Option Event))
      (r : Metrics × List (ℕ × Option Row)) : Type 0 where
    pub invalid : ℕ
    pub suppressed : ℕ
    pub answers : List (ℕ × Option Row)
    pub is_result : r ≡ (with_counts m (a + length qs) (b + invalid) (c + suppressed), answers)
    pub is_served : Served qs invalid suppressed answers

  counts_eq :
      (m : Metrics) (out : List (ℕ × Option Row)) {a a' b b' c c' : ℕ}
      → a ≡ a'
      → b ≡ b'
      → c ≡ c'
      → ◌≡◌ {A = Metrics × List (ℕ × Option Row)}
          (with_counts m a b c, out)
          (with_counts m a' b' c', out)
  counts_eq m out h k l = cc

  answered : ℕ × Option Row → Metrics → List (Option Event) → Metrics × List (ℕ × Option Row)
  answered x m qs = let (m', out) = serve marshal cfg m qs in (m', x ∷ out)

  answered-result :
      (x : ℕ × Option Row) {m m' : Metrics} {a b c : ℕ} {qs : List (Option Event)}
      → m' ≡ with_counts m a b c
      → (r : Result m a b c qs (serve marshal cfg (with_counts m a b c) qs))
      → answered x m' qs
        ≡ (with_counts m (a + length qs) (b + r.invalid) (c + r.suppressed), x ∷ r.answers)
  unfolding answered
  answered-result x {qs = qs} e r =
      ap (λ n. answered x n qs) e ∙ ap (λ p. (p.0, x ∷ p.1)) r.is_result

  module _ (n : ℕ) (capped : cfg.max_field_bytes ≡ pos n) (positive : 0 < n) where
    foreign_source :
        (e : Event) (r : Row) → Accepted marshal cfg e r → ¬ source_value e ≡ cfg.source
    foreign_source e r h k =
        let l = sym h.foreign ∙ ap (λ s. bytes_eq s cfg.source) k ∙ bytes_eq_refl cfg.source in cc

    serve_next :
        {m : Metrics} {a b c : ℕ} {q : Option Event} {qs : List (Option Event)} {r : Response}
        → Handled marshal cfg (with_counts m a b c) q r
        → suc a < 2 ^ 63
        → suc b < 2 ^ 63
        → suc c < 2 ^ 63
        → ((b' c' : ℕ)
            → b' ≤ suc b
            → c' ≤ suc c
            → Result m (suc a) b' c' qs (serve marshal cfg (with_counts m (suc a) b' c') qs))
        → Result m a b c (q ∷ qs) (answered (r.status, r.added) r.metrics qs)
    serve_next {m} {a} {b} {c} bad_body ha hb hc next =
        let rest = next (suc b) c (omega arith) (omega arith) in
        let first = ap invalid_event (received_event-counts m a b c ha) in
        record {
          invalid = suc rest.invalid;
          suppressed = rest.suppressed;
          answers = _;
          is_result =
              answered-result (400, none) (first ∙ invalid_event-counts m (suc a) b c hb) rest
              ∙ counts_eq m _ (omega arith) (omega arith) refl;
          is_served = malformed rest.is_served;
        }
    serve_next {m} {a} {b} {c} (bad_event e x h) ha hb hc next =
        let rest = next (suc b) c (omega arith) (omega arith) in
        let first = ap invalid_event (received_event-counts m a b c ha) in
        record {
          invalid = suc rest.invalid;
          suppressed = rest.suppressed;
          answers = _;
          is_result =
              answered-result (202, none) (first ∙ invalid_event-counts m (suc a) b c hb) rest
              ∙ counts_eq m _ (omega arith) (omega arith) refl;
          is_served = elim (invalid-cases e x h) [
            | inl p ↦ without_id e p rest.is_served
            | inr p ↦ without_time e p rest.is_served
          ];
        }
    serve_next {m} {a} {b} {c} (own_event e h k) ha hb hc next =
        let rest = next b (suc c) (omega arith) (omega arith) in
        let first = ap suppressed_event (received_event-counts m a b c ha) in
        record {
          invalid = rest.invalid;
          suppressed = suc rest.suppressed;
          answers = _;
          is_result =
              answered-result (202, none) (first ∙ suppressed_event-counts m (suc a) b c hc) rest
              ∙ counts_eq m _ (omega arith) refl (omega arith);
          is_served =
              own e (valid-IsComplete e h) (source_value-HasSource e cfg.source k) rest.is_served;
        }
    serve_next {m} {a} {b} {c} (handed_over e r h) ha hb hc next =
        let rest = next b c (omega arith) (omega arith) in
        record {
          invalid = rest.invalid;
          suppressed = rest.suppressed;
          answers = _;
          is_result =
              answered-result (202, some r) (received_event-counts m a b c ha) rest
              ∙ counts_eq m _ (omega arith) refl refl;
          is_served =
              stored e r (valid-IsComplete e h.is_valid)
                (λ s. foreign_source e r h (HasSource-source_value e cfg.source s))
                (row-IsRowOf marshal cfg n capped positive e r h.same_row) rest.is_served;
        }

    -- With a positive MAX_FIELD_BYTES, requests that are served one after another, so few that no counter leaves the
    -- int64 range, are all counted as received, those with no event, no query id or no create time as invalid,
    -- and the complete events of this service's own source as suppressed, and no other counter changes. A request with no
    -- event is answered with 400, the others with 202; the complete events of another source, and no others, are
    -- handed to the buffer, each as its stored row, without plans where the policy drops them and with both, cut to the
    -- cap, where it keeps them.
    pub serve-Served :
        (m : Metrics) (a b c : ℕ) (qs : List (Option Event))
        → a + length qs < 2 ^ 63
        → b + length qs < 2 ^ 63
        → c + length qs < 2 ^ 63
        → Result m a b c qs (serve marshal cfg (with_counts m a b c) qs)
    unfolding serve answered
    serve-Served m a b c [] ha hb hc = record {
      invalid = 0;
      suppressed = 0;
      answers = [];
      is_result = counts_eq m [] (omega arith) (omega arith) (omega arith);
      is_served = all_served;
    }
    serve-Served m a b c (q ∷ qs) ha hb hc =
        serve_next (handle_ingest-Handled marshal cfg (with_counts m a b c) q) (omega arith)
          (omega arith) (omega arith)
          (λ b' c' h k. serve-Served m (suc a) b' c' qs (omega arith) (omega arith) (omega arith))
