-- ===== src/Settings/Env.antt =====
-- internal/config/config.go: the getters of `env`, over an environment. `time.ParseDuration` and
-- the form `%q` of a text are part of it.
use trino_log_sink.Base.{
  Bool, Bytes, List, Option, [], atoi, bytes_eq, codes, false, if◌then◌else◌, is_empty, none, some,
  trim_space, true, ℤ, ◌++◌, ◌||◌, ◌∷◌,
}
use trino_log_sink.Event.{Duration}

-- The value of a variable, none when it is not set, and what the getters call.
pub record Environment : Type 0 where
  pub look_up : Bytes → Option Bytes
  pub quoted : Bytes → Bytes
  pub parse_duration : Bytes → Option Duration

-- A variable that is set to the empty text counts as not set.
set_text : Option Bytes → Option Bytes
unfolding is_empty
set_text none = none
set_text (some v) = if is_empty v then none else some v

-- `strconv.ParseBool`.
one_of : Bytes → List Bytes → Bool
unfolding bytes_eq
one_of v [] = false
one_of v (k ∷ ks) = bytes_eq v k || one_of v ks

unfoldable pub parse_bool : Bytes → Option Bool
unfolding one_of
parse_bool v =
    if one_of v
      (codes "1" ∷ codes "t" ∷ codes "T" ∷ codes "TRUE" ∷ codes "true" ∷ codes "True" ∷ [])
    then some true
    else if one_of v
        (codes "0" ∷ codes "f" ∷ codes "F" ∷ codes "FALSE" ∷ codes "false" ∷ codes "False" ∷ [])
    then some false
    else none

module _ (e : Environment) where
  unfoldable pub str : Bytes → Bytes → Bytes
  unfolding set_text
  str key def = elim (set_text (e.look_up key)) [ none ↦ def | some v ↦ v ]

  -- The value of a variable that is parsed, the default when it is not set or not parsed.
  value_of {ℓ} : {A : Type ℓ} → (Bytes → Option A) → Bytes → A → A
  unfolding set_text trim_space
  value_of parse key def = elim (set_text (e.look_up key)) [
    | none ↦ def
    | some raw ↦ elim (parse (trim_space raw)) [ none ↦ def | some v ↦ v ]
  ]

  -- What a getter adds to `e.errs`.
  errors_of {ℓ} : {A : Type ℓ} → (Bytes → Option A) → Bytes → Bytes → List Bytes
  unfolding set_text trim_space
  errors_of parse kind key = elim (set_text (e.look_up key)) [
    | none ↦ []
    | some raw ↦ elim (parse (trim_space raw)) [
      | none ↦ (key ++ codes ": invalid " ++ kind ++ codes " " ++ e.quoted raw) ∷ []
      | some v ↦ []
    ]
  ]

  unfoldable pub int_val : Bytes → ℤ → ℤ
  unfolding value_of atoi
  int_val key def = value_of atoi key def

  unfoldable pub bool_val : Bytes → Bool → Bool
  unfolding value_of parse_bool
  bool_val key def = value_of parse_bool key def

  unfoldable pub duration : Bytes → Duration → Duration
  unfolding value_of
  duration key def = value_of e.parse_duration key def

  unfoldable pub int_errors : Bytes → List Bytes
  unfolding errors_of atoi
  int_errors key = errors_of atoi (codes "integer") key

  unfoldable pub bool_errors : Bytes → List Bytes
  unfolding errors_of parse_bool
  bool_errors key = errors_of parse_bool (codes "boolean") key

  unfoldable pub duration_errors : Bytes → List Bytes
  unfolding errors_of
  duration_errors key = errors_of e.parse_duration (codes "duration") key
