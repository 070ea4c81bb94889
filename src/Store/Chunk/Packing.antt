-- ===== src/Store/Chunk/Packing.antt =====
-- What the chunks of `chunkRows` are: order, sizes, and that a chunk is closed only when it must be.
use trino_log_sink.Base.{
  All, All-append, Bool-cases, List, [], append-nil, append_assoc, arith, concat, concat-append,
  inl, inr, length, ltb, ℕ, ◌++◌, ◌+◌, ◌<◌, ◌∷◌, ◌≡◌, ◌≤◌, ◌⊎◌,
}
use trino_log_sink.Store.Chunk.{finish, pack, chunk_rows}

-- Every two neighbours of a list are related.
abbrev pub Chain {ℓ κ} : {A : Type ℓ} → (A → A → Type κ) → List A → Type κ
Chain R [] = Unit
Chain R (c ∷ []) = Unit
Chain R (c ∷ d ∷ ds) = R c d × Chain R (d ∷ ds)

module _ {ℓ κ} {A : Type ℓ} (R : A → A → Type κ) where
  Chain-snoc : (cs : List A) (c d : A) → Chain R (cs ++ c ∷ []) → R c d → Chain R (cs ++ c ∷ d ∷ [])
  Chain-snoc [] c d h r = (r, tt)
  Chain-snoc (a ∷ []) c d h r = (h.0, (r, tt))
  Chain-snoc (a ∷ b ∷ cs) c d h r = (h.0, Chain-snoc (b ∷ cs) c d h.1 r)

  Chain-last :
      (cs : List A) (c d : A)
      → ((b : A) → R b c → R b d)
      → Chain R (cs ++ c ∷ [])
      → Chain R (cs ++ d ∷ [])
  Chain-last [] c d k h = tt
  Chain-last (a ∷ []) c d k h = (k a h.0, tt)
  Chain-last (a ∷ b ∷ cs) c d k h = (h.0, Chain-last (b ∷ cs) c d k h.1)

module _ {A : Type 0} where
  -- The estimates of the rows, summed.
  unfoldable pub total : (A → ℕ) → List A → ℕ
  total estimate [] = 0
  total estimate (r ∷ rs) = estimate r + total estimate rs

  total-append :
      (estimate : A → ℕ) (xs ys : List A)
      → total estimate (xs ++ ys) ≡ total estimate xs + total estimate ys
  unfolding total
  total-append estimate [] ys = omega arith
  total-append estimate (x ∷ xs) ys = omega (arith, total-append estimate xs ys)

  total-snoc :
      (estimate : A → ℕ) (xs : List A) (y : A)
      → total estimate (xs ++ y ∷ []) ≡ total estimate xs + estimate y
  unfolding total
  total-snoc estimate xs y = omega (arith, total-append estimate xs (y ∷ []))

  -- A chunk is not empty, and fits the budget unless it is a single row.
  abbrev pub Fits : (A → ℕ) → ℕ → List A → Type 0
  Fits estimate budget chunk =
      (0 < length chunk) × ((length chunk ≡ 1) ⊎ (total estimate chunk ≤ budget))

  -- The chunk has no room for the first row of the next one.
  abbrev pub Overflows : (A → ℕ) → ℕ → List A → List A → Type 0
  Overflows estimate budget c [] = ⊥
  Overflows estimate budget c (r ∷ d) = budget < total estimate c + estimate r

  Overflows-snoc :
      (estimate : A → ℕ) (budget : ℕ) (b c : List A) (r : A)
      → Overflows estimate budget b c
      → Overflows estimate budget b (c ++ r ∷ [])
  Overflows-snoc estimate budget b [] r h = absurd h
  Overflows-snoc estimate budget b (x ∷ c) r h = h

  concat-finish :
      (chunks : List (List A)) (cur : List A) → concat (finish chunks cur) ≡ concat chunks ++ cur
  unfolding finish
  concat-finish chunks [] = rw append-nil
  concat-finish chunks (r ∷ cur) = rw (concat-append chunks ((r ∷ cur) ∷ []), append-nil)

module _ {A : Type 0} (budget : ℕ) (estimate : A → ℕ) where
  concat-pack :
      (rows : List A) (chunks : List (List A)) (cur : List A) (size : ℕ)
      → concat (pack rows budget estimate chunks cur size) ≡ concat chunks ++ cur ++ rows
  unfolding pack
  concat-pack [] chunks cur size = rw (concat-finish, append-nil)
  concat-pack (r ∷ rows) chunks [] size =
      simp (concat-pack rows chunks (r ∷ []) (size + estimate r), append_assoc)
  concat-pack (r ∷ rows) chunks (c ∷ cur) size =
      elim (Bool-cases (ltb budget (size + estimate r))) [
        | inl e ↦
            rw (e, pack)
              (simp
                (concat-pack rows (chunks ++ (c ∷ cur) ∷ []) (r ∷ []), concat-append, append_assoc))
        | inr e ↦ rw (e, pack) (simp (concat-pack rows chunks (c ∷ cur ++ r ∷ []), append_assoc))
      ]

  pack-Fits :
      (rows : List A) (chunks : List (List A)) (cur : List A) (size : ℕ)
      → size ≡ total estimate cur
      → All (Fits estimate budget) chunks
      → ((length cur ≤ 1) ⊎ (total estimate cur ≤ budget))
      → All (Fits estimate budget) (pack rows budget estimate chunks cur size)
  unfolding pack total
  pack-Fits [] chunks [] size e h k = h
  pack-Fits [] chunks (r ∷ cur) size e h k =
      All-append (Fits estimate budget) chunks _ h (ground arith)
  pack-Fits (r ∷ rows) chunks [] size e h k =
      pack-Fits rows chunks (r ∷ []) (size + estimate r) (omega arith) h (inl (omega arith))
  pack-Fits (r ∷ rows) chunks (c ∷ cur) size e h k =
      elim (Bool-cases (ltb budget (size + estimate r))) [
        | inl t ↦
            rw (t, pack)
              (pack-Fits rows (chunks ++ (c ∷ cur) ∷ []) (r ∷ []) (estimate r) (omega arith)
                (All-append (Fits estimate budget) chunks _ h (ground arith)) (inl (omega arith)))
        | inr t ↦
            rw (t, pack)
              (pack-Fits rows chunks (c ∷ cur ++ r ∷ []) (size + estimate r)
                (omega (arith, total-snoc estimate (c ∷ cur) r)) h
                (inr (ground (arith, total-snoc estimate (c ∷ cur) r))))
      ]

  pack-Overflows :
      (rows : List A) (chunks : List (List A)) (c : A) (cur : List A) (size : ℕ)
      → size ≡ total estimate (c ∷ cur)
      → Chain (Overflows estimate budget) (chunks ++ (c ∷ cur) ∷ [])
      → Chain (Overflows estimate budget) (pack rows budget estimate chunks (c ∷ cur) size)
  unfolding pack total
  pack-Overflows [] chunks c cur size e h = h
  pack-Overflows (r ∷ rows) chunks c cur size e h =
      elim (Bool-cases (ltb budget (size + estimate r))) [
        | inl t ↦
            rw (t, pack)
              (pack-Overflows rows (chunks ++ (c ∷ cur) ∷ []) r [] (estimate r) (omega arith) (
                rw append_assoc (
                  Chain-snoc (Overflows estimate budget) chunks (c ∷ cur) (r ∷ []) h
                    (ground arith))))
        | inr t ↦
            rw (t, pack)
              (pack-Overflows rows chunks c (cur ++ r ∷ []) (size + estimate r)
                (omega (arith, total-snoc estimate (c ∷ cur) r))
                (Chain-last (Overflows estimate budget) chunks (c ∷ cur) (c ∷ cur ++ r ∷ [])
                  (λ b. Overflows-snoc estimate budget b (c ∷ cur) r) h))
      ]

  -- The chunks hold the rows in their order, each once.
  pub concat-chunk_rows : (rows : List A) → concat (chunk_rows rows budget estimate) ≡ rows
  unfolding chunk_rows
  concat-chunk_rows rows = concat-pack rows [] [] 0

  -- No chunk is empty, and a chunk of two rows or more has estimates that sum to at most the budget.
  pub chunk_rows-Fits :
      (rows : List A) → All (Fits estimate budget) (chunk_rows rows budget estimate)
  unfolding chunk_rows total
  chunk_rows-Fits rows = pack-Fits rows [] [] 0 (omega arith) tt (inl (omega arith))

  -- The packing is greedy: no chunk has room for the first row of the chunk behind it.
  pub chunk_rows-Overflows :
      (rows : List A) → Chain (Overflows estimate budget) (chunk_rows rows budget estimate)
  unfolding chunk_rows total
  chunk_rows-Overflows [] = tt
  chunk_rows-Overflows (r ∷ rows) = pack-Overflows rows [] r [] (0 + estimate r) (omega arith) tt
