-- ===== src/Value.antt =====
-- The values that the database drivers scan into an `any`, and query results (internal/engine/
-- duckdb.go: `Column`, `QueryResult`).
pub mod Print
use spoofdb.Base.{ℕ, Bool, List, [], Option, none, some}
use spoofdb.Base.Int.{ℤ}
use spoofdb.Text.{Str}

-- One constructor for each dynamic type that the source tells apart. A float is its IEEE bit
-- pattern, a time its nanoseconds from the Unix epoch; of any other value the source uses only
-- what `fmt.Sprint` prints.
pub data Value : Type 0 where
  null : Value
  bool : Bool → Value
  int int8 int16 int32 int64 : ℤ → Value
  uint uint8 uint16 uint32 uint64 : ℕ → Value
  float32 float64 : ℕ → Value
  text bytes : Str → Value
  time : ℤ → Value
  big_int : ℤ → Value
  other : Str → Value

-- `Column`
pub record Column : Type 0 where
  pub name : Str
  pub type : Str

-- `QueryResult`
pub record QueryResult : Type 0 where
  pub cols : List Column
  pub rows : List (List Value)

abbrev pub empty_result : QueryResult
empty_result = record { cols = []; rows = [] }

-- A Go result `(*QueryResult, error)`. Both parts can be there: `return res, rows.Err()`.
pub record Outcome : Type 0 where
  pub res : Option QueryResult
  pub err : Option Str

abbrev pub success : QueryResult → Outcome
success r = record { res = some r; err = none }

abbrev pub failure : Str → Outcome
failure m = record { res = none; err = some m }

-- A result that is there: `err == nil` comes with a result.
abbrev pub the_result : Option QueryResult → QueryResult
the_result none = empty_result
the_result (some r) = r
