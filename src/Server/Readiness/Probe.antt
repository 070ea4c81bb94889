-- ===== src/Server/Readiness/Probe.antt =====
-- internal/server/server.go: what the readiness probe answers.
use trino_log_sink.Base.{Bool-cases, ap, codes, false, inl, inr, refl, some, true, ◌≡◌}
use trino_log_sink.Server.Readiness.{
  State, Step, Steps, check_done, check_returns, check_stores, handle_readyz, loop_returns,
  mark_not_ready, marks, response, returned, signal, start, stay, swap, then_step, wait_over,
}

-- A ready server has stored the outcome of a check that succeeded, last.
ReadyLast : State → Type 0
ReadyLast s = s.ready ≡ true → s.last ≡ some true

Step-ReadyLast : {s t : State} → ReadyLast s → Step s t → ReadyLast t
unfolding ReadyLast check_done swap mark_not_ready
Step-ReadyLast i (check_returns ok h) = i
Step-ReadyLast i (check_stores ok h) = ap some
Step-ReadyLast i (wait_over h) = i
Step-ReadyLast i (loop_returns h k) = i
Step-ReadyLast i signal = i
Step-ReadyLast i marks = λ k. cc

Steps-ReadyLast : {s t : State} → ReadyLast s → Steps s t → ReadyLast t
Steps-ReadyLast i stay = i
Steps-ReadyLast i (then_step p q) = Step-ReadyLast (Steps-ReadyLast i p) q

-- In every history of checks, signal and mark, a server that answers 200 to the readiness probe has stored
-- the outcome of a check that succeeded, and of none that failed behind it.
pub handle_readyz-last :
    {s : State} → Steps start s → handle_readyz s ≡ response 200 (codes "ok") → s.last ≡ some true
unfolding handle_readyz ReadyLast start
handle_readyz-last {s = s} p h = elim (Bool-cases s.ready) [
  | inl e ↦ Steps-ReadyLast (λ k. cc) p e
  | inr e ↦ let k = rw (e, handle_readyz) at h in cc
]

-- A server whose loop has returned when it is marked answers 503 from then on.
Drained : State → Type 0
Drained s = (s.ready ≡ false) × (s.phase ≡ returned)

step-Drained : {s t : State} → Drained s → Step s t → Drained t
unfolding Drained check_done swap mark_not_ready
step-Drained (r, p) (check_returns ok h) = cc
step-Drained (r, p) (check_stores ok h) = cc
step-Drained (r, p) (wait_over h) = cc
step-Drained (r, p) (loop_returns h k) = cc
step-Drained (r, p) signal = (r, p)
step-Drained (r, p) marks = (refl, p)

steps-Drained : {s t : State} → Drained s → Steps s t → Drained t
steps-Drained d stay = d
steps-Drained d (then_step p q) = step-Drained (steps-Drained d p) q

-- A server that is marked when its loop has returned answers 503 in all that follows.
pub marked-not_ready :
    (s t : State)
    → s.phase ≡ returned
    → Steps (mark_not_ready s) t
    → handle_readyz t ≡ response 503 (codes "not ready: store unreachable")
unfolding handle_readyz mark_not_ready Drained
marked-not_ready s t h p = let (r, _) = steps-Drained (refl, h) p in rw r refl
