-- ===== src/Pg/Statement.antt =====
-- internal/pg/handler.go: what is read off the text of a statement, and `resolveFormat` and
-- `oidForType`. A format code is the 16-bit pattern of its `int16`.
use spoofdb.Base.{ℕ, zero, suc, Bool, List, [], ◌∷◌, ◌++◌, ◌==◌, if◌then◌else◌}
use spoofdb.Text.{Str, codes, Unicode, same, one_of, to_upper, trim_space, any_of, until, fields}
use spoofdb.Decimal.{print_nat}

module _ ⦃u : Unicode⦄ where
  -- `firstKeyword`
  unfoldable pub first_keyword : Str → Str
  first_keyword sql = to_upper (until (any_of (codes " \t\r\n(;")) (trim_space sql))

  -- `returnsRows`
  unfoldable pub returns_rows : Str → Bool
  unfolding first_keyword
  returns_rows sql = one_of (first_keyword sql) (
      codes "SELECT"
      ∷ codes "WITH"
      ∷ codes "VALUES"
      ∷ codes "SHOW"
      ∷ codes "TABLE"
      ∷ codes "EXPLAIN"
      ∷ codes "DESCRIBE"
      ∷ codes "PRAGMA"
      ∷ codes "CALL"
      ∷ [])

  abbrev tag_for : Str → ℕ → Str
  tag_for word n =
      if one_of word
        (codes "SELECT" ∷ codes "WITH" ∷ codes "SHOW" ∷ codes "TABLE" ∷ codes "VALUES" ∷ [])
      then codes "SELECT " ++ print_nat n
      else if same word (codes "INSERT")
      then codes "INSERT 0 " ++ print_nat n
      else if one_of word (codes "UPDATE" ∷ codes "DELETE" ∷ [])
      then word ++ b' ' ∷ print_nat n
      else word

  abbrev tag_of : List Str → ℕ → Str
  tag_of [] n = []
  tag_of (w ∷ ws) n = tag_for (to_upper w) n

  -- `commandTag`
  unfoldable pub command_tag : Str → ℕ → Str
  command_tag sql n = tag_of (fields (trim_space sql)) n

  -- `strings.ToUpper(t)` up to the first '('
  unfoldable pub base_type : Str → Str
  base_type t = until (λ c. c == b'(') (to_upper t)

  abbrev oid_for_base : Str → ℕ
  oid_for_base base =
      if one_of base (codes "BOOLEAN" ∷ codes "BOOL" ∷ [])
      then 16
      else if one_of base
          (codes "TINYINT" ∷ codes "SMALLINT" ∷ codes "INT2" ∷ codes "UTINYINT" ∷ [])
      then 21
      else if one_of base (codes "INTEGER" ∷ codes "INT" ∷ codes "INT4" ∷ codes "USMALLINT" ∷ [])
      then 23
      else if one_of base (codes "BIGINT" ∷ codes "INT8" ∷ codes "UINTEGER" ∷ [])
      then 20
      else if one_of base (codes "HUGEINT" ∷ codes "UBIGINT" ∷ codes "UHUGEINT" ∷ [])
      then 20
      else if one_of base (codes "REAL" ∷ codes "FLOAT" ∷ codes "FLOAT4" ∷ [])
      then 700
      else if one_of base (codes "DOUBLE" ∷ codes "FLOAT8" ∷ codes "DECIMAL" ∷ codes "NUMERIC" ∷ [])
      then 701
      else if same base (codes "DATE")
      then 1082
      else if one_of base (codes "TIMESTAMP" ∷ codes "DATETIME" ∷ [])
      then 1114
      else 25

  -- `oidForType`
  unfoldable pub oid_for_type : Str → ℕ
  unfolding base_type
  oid_for_type t = oid_for_base (base_type t)

-- `formats[col]`, or 0 out of range
abbrev format_at : List ℕ → ℕ → ℕ
format_at [] col = 0
format_at (f ∷ fs) zero = f
format_at (f ∷ fs) (suc col) = format_at fs col

-- `resolveFormat`
unfoldable pub resolve_format : List ℕ → ℕ → ℕ
resolve_format [] col = 0
resolve_format (f ∷ []) col = f
resolve_format (f ∷ g ∷ fs) col = format_at (f ∷ g ∷ fs) col
