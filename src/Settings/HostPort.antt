-- ===== src/Settings/HostPort.antt =====
-- internal/config/config.go: `validHostPort` and `identifierPattern`. `net.SplitHostPort` is written out
-- with its brackets; every error of it is none.
use trino_log_sink.Base.{
  Bool, Bytes, Option, [], atoi, codes, false, if◌then◌else◌, is_empty, leb, leb_ℤ, length, none,
  not, pos, refl, some, true, ℕ, ℤ, ◌&&◌, ◌==◌, ◌||◌, ◌∷◌, ◌≡◌,
}

has_byte : ℕ → Bytes → Bool
has_byte c [] = false
has_byte c (x ∷ s) = x == c || has_byte c s

-- The texts before and behind the first such byte.
split_first : ℕ → Bytes → Option (Bytes × Bytes)
split_first c [] = none
split_first c (x ∷ s) =
    let later : Option (Bytes × Bytes) = elim (split_first c s) [
      | none ↦ none
      | some (a, b) ↦ some (x ∷ a, b)
    ] in
    if x == c then some ([], s) else later

-- The texts before and behind the last such byte.
split_last : ℕ → Bytes → Option (Bytes × Bytes)
split_last c [] = none
split_last c (x ∷ s) = elim (split_last c s) [
  | some (a, b) ↦ some (x ∷ a, b)
  | none ↦ if x == c then some ([], s) else none
]

-- `[host]:port`: behind the bracket stands the last colon of the text.
port_behind : Bytes → Bytes → Option (Bytes × Bytes)
unfolding has_byte
port_behind host [] = none
port_behind host (c ∷ port) =
    if not (c == b':')
      || has_byte b':' port
      || has_byte b'[' host
      || has_byte b'[' port
      || has_byte b']' port
    then none
    else some (host, port)

bracketed : Option (Bytes × Bytes) → Option (Bytes × Bytes)
unfolding port_behind
bracketed none = none
bracketed (some (host, rest)) = port_behind host rest

plain : Option (Bytes × Bytes) → Option (Bytes × Bytes)
unfolding has_byte
plain none = none
plain (some (host, port)) =
    if has_byte b':' host
      || has_byte b'[' host
      || has_byte b'[' port
      || has_byte b']' host
      || has_byte b']' port
    then none
    else some (host, port)

unfoldable pub split_host_port : Bytes → Option (Bytes × Bytes)
unfolding bracketed plain split_first split_last
split_host_port [] = none
split_host_port (c ∷ s) =
    if c == b'[' then bracketed (split_first b']' s) else plain (split_last b':' (c ∷ s))

in_port_range : Option ℤ → Bool
in_port_range none = false
in_port_range (some n) = leb_ℤ (pos 1) n && leb_ℤ n (pos 65_535)

unfoldable pub valid_host_port : Bytes → Bool
unfolding split_host_port in_port_range is_empty atoi
valid_host_port addr = elim (split_host_port addr) [
  | none ↦ false
  | some (host, port) ↦ not (is_empty host) && in_port_range (atoi port)
]

is_letter : ℕ → Bool
is_letter c = (leb b'A' c && leb c b'Z') || (leb b'a' c && leb c b'z') || c == b'_'

all_word : Bytes → Bool
unfolding is_letter
all_word [] = true
all_word (c ∷ s) = (is_letter c || (leb b'0' c && leb c b'9')) && all_word s

-- `identifierPattern`.
unfoldable pub is_identifier : Bytes → Bool
unfolding is_letter all_word
is_identifier [] = false
is_identifier (c ∷ s) = is_letter c && leb (length s) 63 && all_word s

valid_host_port_example : valid_host_port (codes "[::1]:9000") ≡ true
unfolding valid_host_port
valid_host_port_example = refl

too_many_colons : valid_host_port (codes "a:b:9000") ≡ false
unfolding valid_host_port
too_many_colons = refl
