-- ===== src/Store/Query/Statement.antt =====
-- internal/store/trino.go: the texts and arguments of `ListQueries` and `GetQuery`, and `trinoWhere`.
use trino_log_sink.Base.{
  Bytes, List, Option, [], arith, codes, decimal, if◌then◌else◌, is_empty, join, ltb_ℤ, map, none,
  pos, pos_part, some, ℤ, ◌++◌, ◌∷◌, ◌≡◌, ◌≤ℤ◌,
}
use trino_log_sink.Store.Row.{Arg}
use trino_log_sink.Store.Identifier.{quote_ident}
use trino_log_sink.Store.Trino.Statements.{TrinoStore}
use trino_log_sink.Store.Query.{
  Predicate, QueryFilter, is_zero, list_predicates, max_list_limit, order_by, page_limit,
  query_id_predicates, sort_column,
}

unfoldable pub placeholder_of : Predicate → Bytes
unfolding quote_ident
placeholder_of p = quote_ident p.column ++ codes " " ++ p.op ++ codes " ?"

unfoldable pub trino_where : List Predicate → Bytes × List Arg
unfolding placeholder_of join
trino_where [] = ([], [])
trino_where (p ∷ ps) = (
  codes " WHERE " ++ join (map placeholder_of (p ∷ ps)) (codes " AND "),
  map (λ q. q.value) (p ∷ ps),
)

-- `strconv.Itoa` of a number that is not negative.
unfoldable pub offset_text : ℤ → Bytes
unfolding decimal
offset_text offset =
    if ltb_ℤ (pos 0) offset then codes " OFFSET " ++ decimal (pos_part offset) else []

module _ (s : TrinoStore) where
  unfoldable pub list_text : QueryFilter → Bytes
  unfolding trino_where list_predicates order_by page_limit offset_text decimal
  list_text f =
      s.summary_select
      ++ (trino_where (list_predicates f)).0
      ++ codes " ORDER BY "
      ++ order_by f
      ++ offset_text f.offset
      ++ codes " LIMIT "
      ++ decimal (pos_part (page_limit f))

  unfoldable pub list_args : QueryFilter → List Arg
  unfolding trino_where list_predicates
  list_args f = (trino_where (list_predicates f)).1

  -- None where `GetQuery` returns nil without asking the database.
  unfoldable pub get_statement : Bytes → Option (Bytes × List Arg)
  unfolding trino_where query_id_predicates
  get_statement id = elim (query_id_predicates id) [
    | none ↦ none
    | some preds ↦
        let (where_text, values) = trino_where preds in
        some (
          codes "SELECT "
              ++ s.row_select_list
              ++ codes " FROM "
              ++ s.table
              ++ where_text
              ++ codes " LIMIT 1",
          values,
        )
  ]

  -- The parts of two filters that the text of the statement depends on are the same.
  pub record SameShape (f g : QueryFilter) : Type 0 where
    pub since_same : is_zero f.since ≡ is_zero g.since
    pub until_same : is_zero f.until ≡ is_zero g.until
    pub user_same : is_empty f.user ≡ is_empty g.user
    pub catalog_same : is_empty f.catalog ≡ is_empty g.catalog
    pub state_same : is_empty f.state ≡ is_empty g.state
    pub column_same : sort_column f ≡ sort_column g
    pub desc_same : f.desc ≡ g.desc
    pub limit_same : f.limit ≡ g.limit
    pub offset_same : f.offset ≡ g.offset

-- The limit that is sent is positive, and at most 5000.
pub page_limit-bounds :
    (f : QueryFilter) → (pos 1 ≤ℤ page_limit f) × (page_limit f ≤ℤ max_list_limit)
unfolding page_limit
page_limit-bounds f = ground arith
