-- ===== src/Store/ClickHouse/Escape.antt =====
-- internal/store/clickhouse.go: `clickhouseParamValue`, and ClickHouse's reading of its escapes.
use mathlib.Core.Option as Option
use trino_log_sink.Base.{
  Bool, Bytes, Option, [], ap, arith, false, if◌then◌else◌, none, refl, some, ℕ, ◌++◌, ◌==◌, ◌||◌,
  ◌∙◌, ◌∷◌, ◌≡◌,
}

abbrev backslash : ℕ
backslash = 92

-- What `clickhouseTSVEscaper` puts for a byte.
escape_byte : ℕ → Bytes
escape_byte c =
    if c == backslash
    then backslash ∷ backslash ∷ []
    else if c == 10
    then backslash ∷ b'n' ∷ []
    else if c == 9
    then backslash ∷ b't' ∷ []
    else if c == 13
    then backslash ∷ b'r' ∷ []
    else if c == 0
    then backslash ∷ b'0' ∷ []
    else if c == 8
    then backslash ∷ b'b' ∷ []
    else if c == 12
    then backslash ∷ b'f' ∷ []
    else c ∷ []

unfoldable pub clickhouse_param_value : Bytes → Bytes
unfolding escape_byte
clickhouse_param_value [] = []
clickhouse_param_value (c ∷ s) = escape_byte c ++ clickhouse_param_value s

-- The byte that a letter behind a backslash stands for.
escaped : ℕ → ℕ
escaped c =
    if c == b'n'
    then 10
    else if c == b't'
    then 9
    else if c == b'r'
    then 13
    else if c == b'0'
    then 0
    else if c == b'b'
    then 8
    else if c == b'f'
    then 12
    else c

-- The control bytes that the format writes with a backslash: NUL, backspace, tab, newline, form feed and carriage
-- return. A raw tab or newline ends the field, and the reading below takes none of them raw.
unfoldable pub is_control : ℕ → Bool
is_control c = c == 0 || c == 8 || c == 9 || c == 10 || c == 12 || c == 13

abbrev put : ℕ → Option Bytes → Option Bytes
put c o = Option.map (◌∷◌ c) o

-- The strict reading of one field of the TSV format: a backslash and a letter are one byte, a raw control byte or
-- a backslash at the end is refused, and the rest stands for itself.
unfoldable pub unescape : Bytes → Option Bytes
unfolding escaped is_control
unescape [] = some []
unescape (c ∷ []) = if c == backslash || is_control c then none else some (c ∷ [])
unescape (c ∷ d ∷ s) =
    let two = unescape s in
    let one = unescape (d ∷ s) in
    if c == backslash then put (escaped d) two else if is_control c then none else put c one

unescape-plain :
    (c : ℕ) (s : Bytes)
    → (c == backslash) ≡ false
    → is_control c ≡ false
    → unescape (c ∷ s) ≡ put c (unescape s)
unfolding unescape
unescape-plain c [] h k = rw (h, k) refl
unescape-plain c (d ∷ s) h k = rw (h, k) refl

unescape-escape_byte : (c : ℕ) (s : Bytes) → unescape (escape_byte c ++ s) ≡ put c (unescape s)
unfolding escape_byte unescape escaped is_control
unescape-escape_byte c s = ground (arith, unescape-plain c s)

pub unescape-clickhouse_param_value : (s : Bytes) → unescape (clickhouse_param_value s) ≡ some s
unfolding clickhouse_param_value unescape
unescape-clickhouse_param_value [] = refl
unescape-clickhouse_param_value (c ∷ s) =
    unescape-escape_byte c (clickhouse_param_value s)
    ∙ ap (put c) (unescape-clickhouse_param_value s)
