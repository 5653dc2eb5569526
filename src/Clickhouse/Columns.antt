-- ===== src/Clickhouse/Columns.antt =====
-- internal/clickhouse/columns.go. Its `toInt`, `toFloat`, `toBool` and `toTime` are word for word
-- those of internal/pg/handler.go, and stand in Pg/Encode.
pub mod Shape
use spoofdb.Base.{
  ℕ, ◌+◌, ◌-◌, ◌^◌, Bool, true, false, List, [], ◌∷◌, ◌++◌, Option, none, some, ltb, if◌then◌else◌,
}
use spoofdb.Base.Int.{ℤ, pos, negsuc}
use spoofdb.Text.{Str, codes, Unicode, one_of}
use spoofdb.Value.{Value, null, text, bytes, time, Column, QueryResult}
use spoofdb.Value.Print.{Formats, seconds, sprint}
use spoofdb.Pg.Statement.{base_type}
use spoofdb.Pg.Encode.{low_bits, to_int, to_float, to_bool, to_time}

-- what a column of ch-go has been given to append
pub data Cell : Type 0 where
  cell_int32 cell_int64 : ℤ → Cell
  cell_float64 : ℕ → Cell
  cell_uint8 : ℕ → Cell
  cell_datetime : ℤ → Cell
  cell_str : Str → Cell

-- the column types of ch-go that `newColBuilder` picks
pub data Kind : Type 0 where
  col_int32 col_int64 col_float64 col_uint8 col_datetime col_str : Kind

-- `int32(x)` of an `int64`
unfoldable pub wrap32 : ℤ → ℤ
unfolding low_bits
wrap32 z = let n = low_bits 32 z in if ltb n (2 ^ 31) then pos n else negsuc (2 ^ 32 - 1 - n)

-- the `switch` of `newColBuilder`
unfoldable pub kind_of : Str → Kind
unfolding one_of
kind_of base =
    if one_of base (
      codes "TINYINT"
      ∷ codes "SMALLINT"
      ∷ codes "INTEGER"
      ∷ codes "INT"
      ∷ codes "INT2"
      ∷ codes "INT4"
      ∷ codes "UTINYINT"
      ∷ codes "USMALLINT"
      ∷ codes "UINTEGER"
      ∷ [])
    then col_int32
    else if one_of base
        (codes "BIGINT" ∷ codes "INT8" ∷ codes "HUGEINT" ∷ codes "UBIGINT" ∷ codes "UHUGEINT" ∷ [])
    then col_int64
    else if one_of base (
        codes "REAL"
        ∷ codes "FLOAT"
        ∷ codes "FLOAT4"
        ∷ codes "DOUBLE"
        ∷ codes "FLOAT8"
        ∷ codes "DECIMAL"
        ∷ codes "NUMERIC"
        ∷ [])
    then col_float64
    else if one_of base (codes "BOOLEAN" ∷ codes "BOOL" ∷ [])
    then col_uint8
    else if one_of base (codes "TIMESTAMP" ∷ codes "DATETIME" ∷ [])
    then col_datetime
    else col_str

module _ ⦃fm : Formats⦄ where
  -- `toStr`
  unfoldable pub to_str : Value → Str
  to_str (text s) = s
  to_str (bytes s) = s
  to_str (time t) = fm.format_time seconds t
  to_str null = []
  to_str v = sprint v

  -- the `add` of a builder
  unfoldable pub cell : Kind → Value → Cell
  unfolding to_int to_float to_bool to_time to_str wrap32
  cell col_int32 v = cell_int32 (wrap32 (to_int v))
  cell col_int64 v = cell_int64 (to_int v)
  cell col_float64 v = cell_float64 (to_float v)
  cell col_uint8 v = cell_uint8 (if to_bool v then 1 else 0)
  cell col_datetime v = cell_datetime (to_time v)
  cell col_str v = cell_str (to_str v)

-- a column that is being built
pub record Builder : Type 0 where
  pub name : Str
  pub kind : Kind
  pub cells : List Cell

module _ ⦃u : Unicode⦄ where
  -- `newColBuilder`, with the column's name
  unfoldable pub new_builder : Column → Builder
  unfolding base_type kind_of
  new_builder c = record { name = c.name; kind = kind_of (base_type c.type); cells = [] }

  abbrev pub builders : List Column → List Builder
  builders [] = []
  builders (c ∷ cs) = new_builder c ∷ builders cs

module _ ⦃fm : Formats⦄ where
  abbrev pub push : Value → Builder → Builder
  push v b = record b { cells = b.cells ++ cell b.kind v ∷ [] }

  abbrev pub in_front : Builder → Option (List Builder) → Option (List Builder)
  in_front b none = none
  in_front b (some bs) = some (b ∷ bs)

  -- the inner loop of `buildInput`; a row that is longer than the columns is a panic (`none`)
  unfoldable pub add_row : List Builder → List Value → Option (List Builder)
  add_row bs [] = some bs
  add_row [] (v ∷ vs) = none
  add_row (b ∷ bs) (v ∷ vs) = in_front (push v b) (add_row bs vs)

  -- the loop over the rows
  unfoldable pub add_rows : List Builder → List (List Value) → Option (List Builder)
  unfolding add_row
  add_rows bs [] = some bs
  add_rows bs (row ∷ rows) = elim (add_row bs row) [ none ↦ none | some bs' ↦ add_rows bs' rows ]

module _ ⦃u : Unicode⦄ ⦃fm : Formats⦄ where
  -- `buildInput`
  unfoldable pub build_input : QueryResult → Bool → Option (List Builder)
  unfolding new_builder add_rows
  build_input res with_rows =
      if with_rows then add_rows (builders res.cols) res.rows else some (builders res.cols)
