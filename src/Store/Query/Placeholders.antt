-- ===== src/Store/Query/Placeholders.antt =====
-- What a user sends reaches the database as arguments only, one for each placeholder.
use trino_log_sink.Base.{
  All, Bool, Bytes, List, [], ap, arith, codes, count_byte, false, if◌then◌else◌, is_empty, join,
  length, length-map, map, refl, sym, true, ℕ, ◌++◌, ◌+◌, ◌∙◌, ◌∷◌, ◌≡◌,
}
use trino_log_sink.Store.Trino.Statements.{TrinoStore}
use trino_log_sink.Store.Query.{
  Predicate, QueryFilter, is_zero, list_predicates, order_by, page_limit, unless,
}
use trino_log_sink.Store.Query.Statement.{
  SameShape, list_args, list_text, placeholder_of, trino_where,
}

where_of : List Bytes → Bytes
where_of [] = []
where_of (t ∷ ts) = codes " WHERE " ++ join (t ∷ ts) (codes " AND ")

trino_where-where_of : (ps : List Predicate) → (trino_where ps).0 ≡ where_of (map placeholder_of ps)
unfolding trino_where where_of
trino_where-where_of [] = refl
trino_where-where_of (p ∷ ps) = refl

trino_where-values : (ps : List Predicate) → (trino_where ps).1 ≡ map (λ q. q.value) ps
unfolding trino_where
trino_where-values [] = refl
trino_where-values (p ∷ ps) = refl

consed : Bool → Bytes → List Bytes → List Bytes
consed absent t ts = if absent then ts else t ∷ ts

map-unless :
    (absent : Bool) (p : Predicate) (ps : List Predicate)
    → map placeholder_of (unless absent p ps)
      ≡ consed absent (placeholder_of p) (map placeholder_of ps)
unfolding unless consed
map-unless true p ps = refl
map-unless false p ps = refl

-- The placeholders by what is absent.
texts : Bool → Bool → Bool → Bool → Bool → List Bytes
texts a b c d e = consed a (codes "\"create_time\" >= ?") (
    consed b (codes "\"create_time\" < ?") (
      consed c (codes "\"user_name\" = ?")
        (consed d (codes "\"catalog\" = ?") (consed e (codes "\"query_state\" = ?") []))))

texts_of : QueryFilter → List Bytes
texts_of f =
    texts (is_zero f.since) (is_zero f.until) (is_empty f.user) (is_empty f.catalog)
      (is_empty f.state)

list_predicates-texts : (f : QueryFilter) → map placeholder_of (list_predicates f) ≡ texts_of f
unfolding list_predicates texts texts_of placeholder_of
list_predicates-texts f = simp map-unless

module _ (s : TrinoStore) (f g : QueryFilter) (h : SameShape s f g) where
  texts_same : texts_of f ≡ texts_of g
  unfolding texts_of
  texts_same = rw (h.since_same, h.until_same, h.user_same, h.catalog_same, h.state_same)

  where_same : (trino_where (list_predicates f)).0 ≡ (trino_where (list_predicates g)).0
  where_same =
      trino_where-where_of (list_predicates f)
      ∙ ap where_of (list_predicates-texts f ∙ texts_same ∙ sym (list_predicates-texts g))
      ∙ sym (trino_where-where_of (list_predicates g))

  order_by_same : order_by f ≡ order_by g
  unfolding order_by
  order_by_same = rw (h.column_same, h.desc_same)

  page_limit_same : page_limit f ≡ page_limit g
  unfolding page_limit
  page_limit_same = rw h.limit_same

  -- The text of the statement depends on which filters are given, on the sort column, the direction, the
  -- limit and the offset, and on nothing that a user wrote into the filters.
  pub list_text-SameShape : list_text s f ≡ list_text s g
  unfolding list_text
  list_text-SameShape = rw (where_same, order_by_same, page_limit_same, h.offset_same)

count_byte-append : (c : ℕ) (s t : Bytes) → count_byte c (s ++ t) ≡ count_byte c s + count_byte c t
unfolding count_byte
count_byte-append c [] t = omega arith
count_byte-append c (x ∷ s) t = ground (arith, count_byte-append c s t)

count_byte-join :
    (c : ℕ) (ts : List Bytes) (sep : Bytes)
    → count_byte c sep ≡ 0
    → All (λ t. count_byte c t ≡ 1) ts
    → count_byte c (join ts sep) ≡ length ts
unfolding join count_byte
count_byte-join c [] sep h k = refl
count_byte-join c (t ∷ []) sep h (k, _) = k
count_byte-join c (t ∷ u ∷ ts) sep h (k, ks) = omega (
  arith,
  count_byte-append c (t ++ sep) (join (u ∷ ts) sep),
  count_byte-append c t sep,
  count_byte-join c (u ∷ ts) sep h ks,
)

count_byte-where_of :
    (ts : List Bytes)
    → All (λ t. count_byte b'?' t ≡ 1) ts
    → count_byte b'?' (where_of ts) ≡ length ts
unfolding where_of count_byte
count_byte-where_of [] h = refl
count_byte-where_of (t ∷ ts) h = omega (
  arith,
  count_byte-append b'?' (codes " WHERE ") (join (t ∷ ts) (codes " AND ")),
  count_byte-join b'?' (t ∷ ts) (codes " AND ") refl h,
)

All-consed :
    (absent : Bool) (t : Bytes) (ts : List Bytes)
    → count_byte b'?' t ≡ 1
    → All (λ u. count_byte b'?' u ≡ 1) ts
    → All (λ u. count_byte b'?' u ≡ 1) (consed absent t ts)
unfolding consed
All-consed true t ts h k = k
All-consed false t ts h k = (h, k)

texts-All : (f : QueryFilter) → All (λ t. count_byte b'?' t ≡ 1) (texts_of f)
unfolding texts_of texts count_byte
texts-All f = All-consed (is_zero f.since) _ _ refl (
    All-consed (is_zero f.until) _ _ refl (
      All-consed (is_empty f.user) _ _ refl
        (All-consed (is_empty f.catalog) _ _ refl (All-consed (is_empty f.state) _ _ refl tt))))

-- The conditions of a listing have as many placeholders as the statement has arguments.
pub list_predicates-placeholders :
    (s : TrinoStore) (f : QueryFilter)
    → count_byte b'?' (trino_where (list_predicates f)).0 ≡ length (list_args s f)
unfolding list_args
list_predicates-placeholders s f =
    let ps = list_predicates f in
    omega (
      arith,
      ap (count_byte b'?') (trino_where-where_of ps ∙ ap where_of (list_predicates-texts f)),
      count_byte-where_of (texts_of f) (texts-All f),
      ap length (list_predicates-texts f),
      length-map placeholder_of ps,
      ap length (trino_where-values ps),
      length-map (λ q. q.value) ps,
    )
