-- ===== src/Client.antt =====
-- internal/querycli: the `query` client, `Main`, the arguments, the request of `list` and the answer of the
-- server. What is printed to the terminal is left out; the flag package, the HTTP client and the file
-- system are arguments.
pub mod Arguments
pub mod Request
pub mod Understood
pub mod Format
pub mod Plan
pub mod Printed
pub mod Connection
pub mod Commands
use trino_log_sink.Base.{
  Bytes, List, Option, [], bytes_eq, codes, if◌then◌else◌, none, some, ℕ, ◌||◌, ◌∷◌,
}

-- An error of the client: help was asked for, the flags are wrong, the query is not found, or another.
pub data Failure : Type 0 where
  help usage not_found : Failure
  other : Bytes → Failure

pub data Answer {ℓ} (A : Type ℓ) : Type ℓ where
  got : A → Answer A
  refused : Failure → Answer A

pub data Subcommand : Type 0 where
  list get plan : Subcommand

-- What `Main` does with its first argument.
pub data Dispatch : Type 0 where
  runs : Subcommand → Dispatch
  shows_help missing unknown : Dispatch

unfoldable pub dispatch : List Bytes → Dispatch
unfolding bytes_eq
dispatch [] = missing
dispatch (sub ∷ rest) =
    if bytes_eq sub (codes "list")
    then runs list
    else if bytes_eq sub (codes "get")
    then runs get
    else if bytes_eq sub (codes "plan")
    then runs plan
    else if bytes_eq sub (codes "-h")
        || bytes_eq sub (codes "--help")
        || bytes_eq sub (codes "help")
    then shows_help
    else unknown

-- The exit code for the result of a subcommand.
unfoldable pub exit_code : Option Failure → ℕ
exit_code none = 0
exit_code (some help) = 0
exit_code (some usage) = 1
exit_code (some not_found) = 4
exit_code (some (other msg)) = 1

tail : List Bytes → List Bytes
tail [] = []
tail (a ∷ rest) = rest

-- `Main`, with the three subcommands as a function on the world.
unfoldable pub main :
    {W : Type 0} → (W → Subcommand → List Bytes → W × Option Failure) → W → List Bytes → W × ℕ
unfolding dispatch exit_code tail
main run w args = elim (dispatch args) [
  | runs sub ↦ let (w', err) = run w sub (tail args) in (w', exit_code err)
  | shows_help ↦ (w, 0)
  | missing ↦ (w, 1)
  | unknown ↦ (w, 1)
]
