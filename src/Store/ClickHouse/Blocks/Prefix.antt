-- ===== src/Store/ClickHouse/Blocks/Prefix.antt =====
-- internal/store/clickhouse.go: blocks that are recorded one after another, again and again.
use trino_log_sink.Base.{
  Bytes, List, [], ap, append-nil, append_assoc, arith, bytes_eq_refl, false, max, refl, suc, sym,
  take, true, zero, ℕ, ◌++◌, ◌||◌, ◌∙◌, ◌∷◌, ◌≡◌, bytes_eq,
}
use trino_log_sink.Store.ClickHouse.Blocks.{Block, has_token, record_block, table_rows}

unfoldable pub record_all : List Block → List Block → List Block
unfolding record_block
record_all [] blocks = blocks
record_all (b ∷ bs) blocks = record_all bs (record_block b blocks)

-- The tokens of the blocks are not in the table, and different from each other.
abbrev pub Fresh : List Block → List Block → Type 0
Fresh [] blocks = Unit
Fresh (b ∷ bs) blocks = (has_token b.0 blocks ≡ false) × Fresh bs (blocks ++ b ∷ [])

pub has_token-append :
    (t : Bytes) (xs ys : List Block) → has_token t (xs ++ ys) ≡ (has_token t xs || has_token t ys)
unfolding has_token
has_token-append t [] ys = refl
has_token-append t ((u, rows) ∷ xs) ys = ground (arith, has_token-append t xs ys)

pub has_token-snoc :
    (t : Bytes) (b : Block) (blocks : List Block)
    → has_token t blocks ≡ false
    → bytes_eq b.0 t ≡ false
    → has_token t (blocks ++ b ∷ []) ≡ false
unfolding has_token
has_token-snoc t b blocks h k = rw (has_token-append t blocks (b ∷ []), h, k) refl

has_token_self : (b : Block) → has_token b.0 (b ∷ []) ≡ true
unfolding has_token
has_token_self (t, rows) = rw (bytes_eq_refl t) refl

has_token-middle : (b : Block) (xs ys : List Block) → has_token b.0 ((xs ++ b ∷ []) ++ ys) ≡ true
has_token-middle b xs ys =
    rw (has_token-append b.0 (xs ++ b ∷ []) ys, has_token-append b.0 xs (b ∷ []), has_token_self b)
      (ground arith)

record_block-new :
    (b : Block) (blocks : List Block)
    → has_token b.0 blocks ≡ false
    → record_block b blocks ≡ blocks ++ b ∷ []
unfolding record_block
record_block-new b blocks h = rw h refl

record_block-known :
    (b : Block) (blocks : List Block) → has_token b.0 blocks ≡ true → record_block b blocks ≡ blocks
unfolding record_block
record_block-known b blocks h = rw h refl

take_nil {ℓ} : {A : Type ℓ} (n : ℕ) → take {A = A} n [] ≡ []
take_nil zero = refl
take_nil (suc n) = refl

-- Behind the first k of the fresh blocks, recording the first j of them leaves the first max j k.
pub record_all-take :
    (bs blocks : List Block) (j k : ℕ)
    → Fresh bs blocks
    → record_all (take j bs) (blocks ++ take k bs) ≡ blocks ++ take (max j k) bs
unfolding record_all
record_all-take [] blocks j k h =
    rw (take_nil {A = Block} j, take_nil {A = Block} k, take_nil {A = Block} (max j k)) refl
record_all-take (b ∷ bs) blocks zero k h =
    let e : k ≡ max 0 k = omega arith in ap (λ n. blocks ++ take n (b ∷ bs)) e
record_all-take (b ∷ bs) blocks (suc j) zero (h, hs) =
    let first : record_block b (blocks ++ []) ≡ (blocks ++ b ∷ []) ++ [] =
      ap (record_block b) (append-nil blocks)
      ∙ record_block-new b blocks h
      ∙ sym (append-nil (blocks ++ b ∷ [])) in
    let e : suc (max j 0) ≡ max (suc j) 0 = omega arith in
    ap (record_all (take j bs)) first
    ∙ (record_all-take bs (blocks ++ b ∷ []) j 0 hs
        ∙ (append_assoc blocks (b ∷ []) (take (max j 0) bs)
            ∙ ap (λ n. blocks ++ take n (b ∷ bs)) e))
record_all-take (b ∷ bs) blocks (suc j) (suc k) (h, hs) =
    let moved = append_assoc blocks (b ∷ []) (take k bs) in
    let first : record_block b (blocks ++ b ∷ take k bs) ≡ (blocks ++ b ∷ []) ++ take k bs =
      ap (record_block b) (sym moved)
      ∙ record_block-known b ((blocks ++ b ∷ []) ++ take k bs)
          (has_token-middle b blocks (take k bs)) in
    let e : suc (max j k) ≡ max (suc j) (suc k) = omega arith in
    ap (record_all (take j bs)) first
    ∙ (record_all-take bs (blocks ++ b ∷ []) j k hs
        ∙ (append_assoc blocks (b ∷ []) (take (max j k) bs)
            ∙ ap (λ n. blocks ++ take n (b ∷ bs)) e))

pub table_rows-append :
    (xs ys : List Block) → table_rows (xs ++ ys) ≡ table_rows xs ++ table_rows ys
unfolding table_rows
table_rows-append [] ys = refl
table_rows-append ((t, rows) ∷ xs) ys =
    ap (λ r. rows ++ r) (table_rows-append xs ys)
    ∙ sym (append_assoc rows (table_rows xs) (table_rows ys))
