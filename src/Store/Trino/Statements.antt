-- ===== src/Store/Trino/Statements.antt =====
-- internal/store/trino.go, `buildStatements` and `coalesced`; identifier.go and the tables of columns
-- are in Store/Identifier.antt.
use trino_log_sink.Base.{
  Bytes, List, [], bytes_eq, codes, count_byte, if◌then◌else◌, join, leb_ℤ, length, map, pos, refl,
  suc, zero, ℕ, ℤ, ◌++◌, ◌+◌, ◌∷◌, ◌≡◌,
}
use trino_log_sink.Store.Identifier.{
  Column, SqlType, bigint, qualified_name, quote_ident, schema_columns, summary_columns, timestamp,
  varchar,
}

abbrev pub default_max_statement_bytes : ℤ
default_max_statement_bytes = pos 700_000

abbrev pub execute_immediate_overhead : ℕ
execute_immediate_overhead = 27

-- The part of `config.Trino` that the statements depend on.
pub record TrinoConfig : Type 0 where
  pub catalog : Bytes
  pub schema : Bytes
  pub table : Bytes
  pub max_statement_bytes : ℤ
  pub iceberg_location : Bytes

pub record TrinoStore : Type 0 where
  pub table : Bytes
  pub insert_columns : Bytes
  pub insert_prefix : Bytes
  pub row_placeholder : Bytes
  pub row_select_list : Bytes
  pub summary_select : Bytes
  pub stmt_overhead : ℕ
  pub max_stmt_bytes : ℤ

unfoldable pub coalesced : SqlType → Bytes → Bytes
coalesced timestamp quoted = quoted
coalesced bigint quoted = codes "COALESCE(" ++ quoted ++ codes ", 0)"
coalesced varchar quoted = codes "COALESCE(" ++ quoted ++ codes ", '')"

abbrev pub comma_space : Bytes
comma_space = codes ", "

unfoldable pub coalesced_column : Column → Bytes
unfolding coalesced quote_ident
coalesced_column c = coalesced c.sql_type (quote_ident c.name)

-- `byName[name]`; a name that no column has would give the zero column, whose type is none of the two
-- that are treated apart.
type_of : Bytes → List Column → SqlType
type_of name [] = varchar
type_of name (c ∷ cs) = if bytes_eq c.name name then c.sql_type else type_of name cs

unfoldable pub coalesced_name : Bytes → Bytes
unfolding coalesced quote_ident type_of schema_columns bytes_eq
coalesced_name name = coalesced (type_of name schema_columns) (quote_ident name)

-- `strings.TrimSuffix(strings.Repeat("?,", n), ",")`
question_marks : ℕ → Bytes
question_marks zero = []
question_marks (suc zero) = b'?' ∷ []
question_marks (suc (suc n)) = b'?' ∷ b',' ∷ question_marks (suc n)

unfoldable pub build_statements : TrinoConfig → TrinoStore
unfolding question_marks join qualified_name coalesced_column coalesced_name schema_columns
    summary_columns quote_ident count_byte
build_statements cfg = record {
  table = table;
  insert_columns = columns;
  insert_prefix = prefix;
  row_placeholder = b'(' ∷ question_marks (length schema_columns) ++ b')' ∷ [];
  row_select_list = join (map coalesced_column schema_columns) comma_space;
  summary_select =
      codes "SELECT "
      ++ join (map coalesced_name summary_columns) comma_space
      ++ codes " FROM "
      ++ table;
  stmt_overhead = execute_immediate_overhead + length prefix + count_byte b'\'' prefix;
  max_stmt_bytes =
      if leb_ℤ cfg.max_statement_bytes (pos 0)
      then default_max_statement_bytes
      else cfg.max_statement_bytes;
}
  where
    table : Bytes
    table = qualified_name cfg.catalog cfg.schema cfg.table

    columns : Bytes
    columns = join (map (λ c. quote_ident c.name) schema_columns) comma_space

    prefix : Bytes
    prefix = codes "INSERT INTO " ++ table ++ codes " (" ++ columns ++ codes ") VALUES "

-- The placeholder of a row is 83 bytes: a question mark for each of the 41 columns, 40 commas and the
-- parentheses.
pub length-row_placeholder :
    (cfg : TrinoConfig) → length (build_statements cfg).row_placeholder ≡ 83
unfolding build_statements
length-row_placeholder cfg = refl
