-- ===== src/Client/Arguments.antt =====
-- internal/querycli/querycli.go: `parseFlags` and `parseWithID`, which takes flags on both sides of the query
-- id. `parse` is `fs.Parse`, with the flags that are set as its state.
use trino_log_sink.Base.{
  Bool-cases, Bytes, List, Option, [], ap, arith, codes, false, if◌then◌else◌, inl, inr, is_empty,
  length, none, refl, some, suc, sym, zero, ℕ, ◌++◌, ◌<◌, ◌∙◌, ◌∷◌, ◌≡◌, ◌≤◌, ◌⊎◌,
}
use trino_log_sink.Client.{Answer, Failure, got, help, other, refused, usage}

-- What `fs.Parse` gives: `flag.ErrHelp`, another error, or the arguments behind the flags.
pub data Parsed : Type 0 where
  asks_help misused : Parsed
  leaves : List Bytes → Parsed

got_inj : {a b : Bytes} → ◌≡◌ {A = Answer Bytes} (got a) (got b) → a ≡ b
got_inj h = cc

Parsed-cases :
    (p : Parsed)
    → (p ≡ asks_help)
      ⊎ ((p ≡ misused)
          ⊎ ((p ≡ leaves []) ⊎ ((a : Bytes) × (rest : List Bytes) × (p ≡ leaves (a ∷ rest)))))
Parsed-cases asks_help = inl refl
Parsed-cases misused = inr (inl refl)
Parsed-cases (leaves []) = inr (inr (inl refl))
Parsed-cases (leaves (a ∷ rest)) = inr (inr (inr (a, rest, refl)))

module _ {F : Type 0} (parse : F → List Bytes → F × Parsed) where
  unfoldable pub parse_flags : F → List Bytes → F × Answer (List Bytes)
  parse_flags f args =
      let (f', parsed) = parse f args in
      elim parsed [
        | asks_help ↦ (f', refused help)
        | misused ↦ (f', refused usage)
        | leaves rest ↦ (f', got rest)
      ]

  -- The loop, with its variables `rem` and `id`; none when the fuel is used up.
  unfoldable pub id_loop : ℕ → F → List Bytes → Bytes → Option (F × Answer Bytes)
  unfolding parse_flags is_empty
  id_loop zero f rem id = none
  id_loop (suc fuel) f rem id =
      let (f', answer) = parse_flags f rem in
      elim answer [
        | refused e ↦ some (f', refused e)
        | got [] ↦ some (
          f',
          if is_empty id then refused (other (codes "missing <queryId> argument")) else got id,
        )
        | got (a ∷ rest) ↦
            let next = id_loop fuel f' rest a in
            if is_empty id
            then next
            else some (f', refused (other (codes "unexpected argument: " ++ a)))
      ]

  -- Each round takes one argument away.
  unfoldable pub parse_with_id : F → List Bytes → Option (F × Answer Bytes)
  unfolding id_loop
  parse_with_id f args = id_loop (suc (length args)) f args []

  -- `fs.Args()` are the arguments behind the flags: no more than there were.
  abbrev pub Shortens : Type 0
  Shortens =
      (f : F) (args rest : List Bytes) → (parse f args).1 ≡ leaves rest → length rest ≤ length args

  -- The loop ends, and an id that it gives is not empty.
  abbrev pub Ends : Option (F × Answer Bytes) → Type 0
  Ends o =
      (f : F) × (answer : Answer Bytes) × (o ≡ some (f, answer))
      × ((id : Bytes) → answer ≡ got id → is_empty id ≡ false)

  -- The loop stops with an answer that is no id.
  refused-Ends : (f : F) (e : Failure) → Ends (some (f, refused e))
  refused-Ends f e = (f, refused e, refl, λ id h. cc)

  id_loop-Ends :
      Shortens
      → (fuel : ℕ) (f : F) (rem : List Bytes) (id : Bytes) → length rem < fuel
      → Ends (id_loop fuel f rem id)
  unfolding id_loop parse_flags
  id_loop-Ends h zero f rem id k = absurd (omega arith)
  id_loop-Ends h (suc fuel) f rem id k = elim (Parsed-cases (parse f rem).1) [
    | inl e ↦ rw (e, id_loop, parse_flags) (refused-Ends _ help)
    | inr (inl e) ↦ rw (e, id_loop, parse_flags) (refused-Ends _ usage)
    | inr (inr (inl e)) ↦ elim (Bool-cases (is_empty id)) [
      | inl b ↦ rw (e, id_loop, parse_flags, b) (refused-Ends _ _)
      | inr b ↦
          rw (e, id_loop, parse_flags, b)
            (_, got id, refl, λ id' l. ap is_empty (sym (got_inj l)) ∙ b)
    ]
    | inr (inr (inr (a, rest, e))) ↦ elim (Bool-cases (is_empty id)) [
      | inl b ↦
          rw (e, id_loop, parse_flags, b)
            (id_loop-Ends h fuel (parse_flags f rem).0 rest a
              (let l = h f rem (a ∷ rest) e in omega arith))
      | inr b ↦ rw (e, id_loop, parse_flags, b) (refused-Ends _ _)
    ]
  ]

  -- For arguments of which the flag package leaves no more than there were, the loop ends, and gives no empty
  -- id.
  pub parse_with_id-Ends : Shortens → (f : F) (args : List Bytes) → Ends (parse_with_id f args)
  unfolding parse_with_id
  parse_with_id-Ends h f args = id_loop-Ends h (suc (length args)) f args [] (omega arith)
