-- ===== src/Store/ClickHouse/Token/Separate.antt =====
-- internal/store/clickhouse.go, `batchToken`: batches without a common query id have different tokens.
use mathlib.Core.Path.{subst}
use trino_log_sink.Base.{
  All, Bool-cases, Bytes, IsDigit, List, [], ap, append_assoc, arith, bytes_eq, bytes_eq_refl,
  bytes_eq→eq, bytes_lt, decimal, decimal-IsDigit, digits, digits-decimal, false, if_intro, inl,
  inr, length, refl, some, sym, ℕ, ◌++◌, ◌<◌, ◌^◌, ◌∙◌, ◌∷◌, ◌≡◌, codes, concat, map,
}
use trino_log_sink.Store.Row.{Row, args, text}
use trino_log_sink.Ingest.Dedupe.{Lacks}
use trino_log_sink.Store.ClickHouse.Insert.{
  batch_token, hash_arg, insert_row, sort_from, sorted_rows,
}

-- What stands before a colon, and what stands behind it, if the first part has digits only.
split_digits :
    (a b x y : Bytes)
    → All IsDigit a
    → All IsDigit b
    → a ++ b':' ∷ x ≡ b ++ b':' ∷ y
    → (a ≡ b) × (x ≡ y)
split_digits [] [] x y h k e = (refl, cc)
split_digits [] (c ∷ b) x y h (k, ks) e = let l : b':' ≡ c = cc in absurd (omega arith)
split_digits (c ∷ a) [] x y (h, hs) k e = let l : c ≡ b':' = cc in absurd (omega arith)
split_digits (c ∷ a) (d ∷ b) x y (h, hs) (k, ks) e =
    let l : c ≡ d = cc in let (p, q) = split_digits a b x y hs ks cc in (cc, q)

-- Texts of one length in front of others.
split_length : (a b x y : Bytes) → length a ≡ length b → a ++ x ≡ b ++ y → a ≡ b
split_length [] [] x y h e = refl
split_length [] (c ∷ b) x y h e = absurd (omega arith)
split_length (c ∷ a) [] x y h e = absurd (omega arith)
split_length (c ∷ a) (d ∷ b) x y h e =
    let l : c ≡ d = cc in let q = split_length a b x y (omega arith) cc in cc

decimal_inj : (m n : ℕ) → m < 10 ^ 20 → n < 10 ^ 20 → decimal m ≡ decimal n → m ≡ n
decimal_inj m n h k e =
    let l : some m ≡ some n = sym (digits-decimal m h) ∙ ap digits e ∙ digits-decimal n k in cc

framed :
    (d a x : Bytes)
    → (codes "s" ++ d ++ codes ":" ++ a ++ codes ";") ++ x ≡ b's' ∷ (d ++ b':' ∷ (a ++ b';' ∷ x))
framed d a x = simp append_assoc

hash_text :
    (a x : Bytes) → hash_arg (text a) ++ x ≡ b's' ∷ (decimal (length a) ++ b':' ∷ (a ++ b';' ∷ x))
unfolding hash_arg
hash_text a x = framed (decimal (length a)) a x

-- The text that a batch starts with tells its first query id.
text_inj :
    (a b x y : Bytes)
    → length a < 10 ^ 20
    → length b < 10 ^ 20
    → hash_arg (text a) ++ x ≡ hash_arg (text b) ++ y
    → a ≡ b
text_inj a b x y h k e =
    let e' = sym (hash_text a x) ∙ e ∙ hash_text b y in
    let (p, q) =
      split_digits (decimal (length a)) (decimal (length b)) (a ++ b';' ∷ x) (b ++ b';' ∷ y)
        (decimal-IsDigit (length a)) (decimal-IsDigit (length b)) cc in
    split_length a b (b';' ∷ x) (b';' ∷ y) (decimal_inj (length a) (length b) h k p) q

All-insert_row :
    (P : Row → Type 0) (r : Row) (rows : List Row) → P r → All P rows → All P (insert_row r rows)
unfolding insert_row
All-insert_row P r [] p h = (p, tt)
All-insert_row P r (x ∷ rows) p (q, h) =
    if_intro (All P) (bytes_lt r.query_id x.query_id) (p, (q, h)) (q, All-insert_row P r rows p h)

All-sort_from :
    (P : Row → Type 0) (rows sorted : List Row)
    → All P rows
    → All P sorted
    → All P (sort_from rows sorted)
unfolding sort_from
All-sort_from P [] sorted h k = k
All-sort_from P (r ∷ rows) sorted (p, h) k =
    All-sort_from P rows (insert_row r sorted) h (All-insert_row P r sorted p k)

All-sorted_rows : (P : Row → Type 0) (rows : List Row) → All P rows → All P (sorted_rows rows)
unfolding sorted_rows
All-sorted_rows P rows h = All-sort_from P rows [] h tt

abbrev HasFirst : List Row → Type 0
HasFirst rows = (x : Row) × (t : List Row) × (rows ≡ x ∷ t)

insert_row_first : (r : Row) (rows : List Row) → HasFirst (insert_row r rows)
unfolding insert_row
insert_row_first r [] = (r, [], refl)
insert_row_first r (x ∷ rows) =
    if_intro HasFirst (bytes_lt r.query_id x.query_id) (_, _, refl) (_, _, refl)

sort_from_first : (rows sorted : List Row) → HasFirst sorted → HasFirst (sort_from rows sorted)
unfolding sort_from
sort_from_first [] sorted h = h
sort_from_first (r ∷ rows) sorted h =
    sort_from_first rows (insert_row r sorted) (insert_row_first r sorted)

sorted_rows_first : (rows : List Row) → 0 < length rows → HasFirst (sorted_rows rows)
unfolding sorted_rows sort_from
sorted_rows_first [] h = absurd (omega arith)
sorted_rows_first (r ∷ rows) h = sort_from_first rows (insert_row r []) (insert_row_first r [])

-- The text that the token of a batch is the hash of begins with its first query id.
batch_token_first :
    (hash : Bytes → Bytes) (rows : List Row) (r : Row) (t : List Row)
    → sorted_rows rows ≡ r ∷ t
    → (x : Bytes) × (batch_token hash rows ≡ hash (hash_arg (text r.query_id) ++ x))
unfolding batch_token args
batch_token_first hash rows r t e =
    let encoded : Row → Bytes = λ q. concat (map hash_arg (args q)) in
    (
      _,
      ap (λ rs. hash (concat (map encoded rs))) e
          ∙ ap hash (append_assoc (hash_arg (text r.query_id)) _ _),
    )

-- No row of the one batch has the query id of a row of the other.
abbrev pub Apart : List Row → List Row → Type 0
Apart l m = All (λ r. Lacks r.query_id m) l

-- A query id whose length is an int.
abbrev pub HasId : Row → Type 0
HasId r = length r.query_id < 2 ^ 63

-- With a hash without collisions, batches that are not empty and have no query id in common have different
-- tokens.
pub batch_token-separates :
    (hash : Bytes → Bytes)
    → ((s t : Bytes) → hash s ≡ hash t → s ≡ t)
    → (l m : List Row) → 0 < length l
    → 0 < length m
    → All HasId l
    → All HasId m
    → Apart l m
    → bytes_eq (batch_token hash l) (batch_token hash m) ≡ false
batch_token-separates hash inj l m h k hl hm apart =
    let (r, t, e) = sorted_rows_first l h in
    let (q, u, f) = sorted_rows_first m k in
    let (x, ex) = batch_token_first hash l r t e in
    let (y, ey) = batch_token_first hash m q u f in
    let firsts : All HasId (r ∷ t) = subst (All HasId) e (All-sorted_rows HasId l hl) in
    let seconds : All HasId (q ∷ u) = subst (All HasId) f (All-sorted_rows HasId m hm) in
    let lacks : Lacks r.query_id m =
      (subst (All (λ z. Lacks z.query_id m)) e
        (All-sorted_rows (λ z. Lacks z.query_id m) l apart)).0 in
    let other : bytes_eq q.query_id r.query_id ≡ false =
      (subst (All (λ z. bytes_eq z.query_id r.query_id ≡ false)) f
        (All-sorted_rows (λ z. bytes_eq z.query_id r.query_id ≡ false) m lacks)).0 in
    elim (Bool-cases (bytes_eq (batch_token hash l) (batch_token hash m))) [
      | inr b ↦ b
      | inl b ↦
          let same : r.query_id ≡ q.query_id =
            text_inj r.query_id q.query_id x y (omega (arith, firsts.0)) (omega (arith, seconds.0))
              (inj _ _ (sym ex ∙ bytes_eq→eq _ _ b ∙ ey)) in
          let clash = sym other ∙ ap (λ i. bytes_eq q.query_id i) same ∙ bytes_eq_refl q.query_id in
          cc
    ]
