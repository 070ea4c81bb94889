-- ===== src/Store/Identifier/Quoting.antt =====
-- A quoted identifier is read back as the name it was made of, whatever bytes the name has.
use trino_log_sink.Base.{
  Bool-cases, Bytes, Option, [], ap, append_assoc, arith, false, if◌then◌else◌, inl, inr, none,
  refl, some, ℕ, ◌++◌, ◌==◌, ◌∙◌, ◌∷◌, ◌≡◌,
}
use trino_log_sink.Store.Identifier.{double_byte, quote, quote_ident}

prefixed : ℕ → Option (Bytes × Bytes) → Option (Bytes × Bytes)
prefixed c none = none
prefixed c (some (s, rest)) = some (c ∷ s, rest)

-- SQL's reading of a delimited identifier behind its opening quote: the name, and the text behind it.
unfoldable pub read_quoted : Bytes → Option (Bytes × Bytes)
unfolding prefixed
read_quoted [] = none
read_quoted (c ∷ []) = if c == quote then some ([], []) else none
read_quoted (c ∷ d ∷ s) =
    let doubled = read_quoted s in
    let plain = read_quoted (d ∷ s) in
    if c == quote
    then (if d == quote then prefixed quote doubled else some ([], d ∷ s))
    else prefixed c plain

unfoldable pub read_ident : Bytes → Option (Bytes × Bytes)
unfolding read_quoted
read_ident [] = none
read_ident (c ∷ s) = if c == quote then read_quoted s else none

-- The text does not go on with a quote.
abbrev pub IsDelimited : Bytes → Type 0
IsDelimited [] = Unit
IsDelimited (c ∷ s) = (c == quote) ≡ false

read_quoted-end : (rest : Bytes) → IsDelimited rest → read_quoted (quote ∷ rest) ≡ some ([], rest)
unfolding read_quoted
read_quoted-end [] h = refl
read_quoted-end (c ∷ s) h = rw h

read_quoted-plain :
    (c : ℕ) (s : Bytes) → (c == quote) ≡ false → read_quoted (c ∷ s) ≡ prefixed c (read_quoted s)
unfolding read_quoted prefixed
read_quoted-plain c [] h = rw h
read_quoted-plain c (d ∷ s) h = rw h

read_quoted-double_byte :
    (s rest : Bytes)
    → IsDelimited rest
    → read_quoted (double_byte quote s ++ quote ∷ rest) ≡ some (s, rest)
unfolding double_byte prefixed read_quoted
read_quoted-double_byte [] rest h = read_quoted-end rest h
read_quoted-double_byte (x ∷ s) rest h = elim (Bool-cases (x == quote)) [
  | inl e ↦
      let q : x ≡ quote = ground arith in
      rw q (ap (prefixed quote) (read_quoted-double_byte s rest h))
  | inr e ↦
      rw (e, double_byte)
        (read_quoted-plain x _ e ∙ ap (prefixed x) (read_quoted-double_byte s rest h))
]

-- A quoted name followed by anything but a quote is read as that name, with that text behind it: no
-- name can end its quotation.
pub read_ident-quote_ident :
    (s rest : Bytes) → IsDelimited rest → read_ident (quote_ident s ++ rest) ≡ some (s, rest)
unfolding read_ident quote_ident
read_ident-quote_ident s rest h =
    rw (append_assoc (double_byte quote s) (quote ∷ []) rest) (read_quoted-double_byte s rest h)
