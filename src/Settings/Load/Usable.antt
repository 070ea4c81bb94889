-- ===== src/Settings/Load/Usable.antt =====
-- internal/config/config.go: what a configuration that `Load` returns is good for.
use mathlib.Core.Path.{subst}
use trino_log_sink.Base.{Bytes, List, [], inr, refl, sym, ◌++◌, ◌∷◌, ◌≡◌}
use trino_log_sink.Settings.{Service}
use trino_log_sink.Settings.Checks.{validate}
use trino_log_sink.Settings.Checks.Accepted.{IsUsable, validate-IsUsable}
use trino_log_sink.Settings.Env.{Environment}
use trino_log_sink.Settings.Load.{accepted, env_errors, load, loaded}

append-nil_inv : {A : Type 0} (xs ys : List A) → xs ++ ys ≡ [] → ys ≡ []
append-nil_inv [] ys h = h
append-nil_inv (x ∷ xs) ys h = cc

module _ (e : Environment) where
  accepted-nil :
      (cfg c : Service) (es : List Bytes) → accepted e cfg es ≡ inr c → (es ≡ []) × (c ≡ cfg)
  unfolding accepted
  accepted-nil cfg c [] h = (refl, cc)
  accepted-nil cfg c (x ∷ xs) h = cc

  -- Whatever the environment says, a configuration that `Load` returns has a positive batch size, flush
  -- interval, capacity and backoff, no negative number of retries, a maximal backoff not below the first, at
  -- least 16384 bytes for a statement and 1024 for a field.
  pub load-IsUsable : (c : Service) → load e ≡ inr c → IsUsable c
  unfolding load
  load-IsUsable c h =
      let cfg = loaded e in
      let errs = env_errors e in
      let (k, same) = accepted-nil cfg c (errs ++ validate cfg) h in
      subst IsUsable (sym same) (validate-IsUsable cfg (append-nil_inv errs (validate cfg) k))
