-- ===== src/Clickhouse/Report.antt =====
-- internal/clickhouse/fidelity.go.
pub mod Counts
pub mod Reasons
pub mod Wide
use spoofdb.Base.{
  ℕ, ◌+◌, ◌*◌, Bool, true, false, not, ◌&&◌, ◌||◌, List, [], ◌∷◌, ◌++◌, Option, none, some, ltb,
  leb, if◌then◌else◌, get_elem?,
}
use spoofdb.Base.Int.{ℤ, pos, negsuc}
use spoofdb.Text.{Str, codes, Unicode, one_of}
use spoofdb.Value.{Value, null, time, Column, QueryResult}
use spoofdb.Value.Print.{Formats}
use spoofdb.Fidelity.{Report, new, add, exceeds_int64}
use spoofdb.Pg.Statement.{base_type}

-- `outsideDateTimeRange`: the seconds are below 0, or above 2^32 - 1
unfoldable pub outside_date_time_range : Value → Bool
outside_date_time_range (time (pos n)) = leb (4294967296 * 1000000000) n
outside_date_time_range (time (negsuc n)) = true
outside_date_time_range v = false

-- the `switch` on the base type
abbrev pub type_note : Str → Str → Report → Report
type_note name base r =
    if one_of base (codes "DECIMAL" ∷ codes "NUMERIC" ∷ [])
    then add name (codes "DECIMAL shown as Float64; precision may be lost") r
    else if one_of base (codes "BOOLEAN" ∷ codes "BOOL" ∷ [])
    then add name (codes "BOOLEAN shown as UInt8") r
    else if one_of base (
        codes "UTINYINT"
        ∷ codes "USMALLINT"
        ∷ codes "UINTEGER"
        ∷ codes "UBIGINT"
        ∷ codes "UHUGEINT"
        ∷ [])
    then add name (codes "unsigned integer shown as signed") r
    else if one_of base (
        codes "DATE"
        ∷ codes "TIME"
        ∷ codes "INTERVAL"
        ∷ codes "UUID"
        ∷ codes "BLOB"
        ∷ codes "BIT"
        ∷ [])
    then add name (base ++ codes " shown as text") r
    else r

abbrev pub is_wide_int : Str → Bool
is_wide_int base = one_of base (codes "HUGEINT" ∷ codes "UHUGEINT" ∷ codes "UBIGINT" ∷ [])

abbrev pub is_timestamp : Str → Bool
is_timestamp base = one_of base (codes "TIMESTAMP" ∷ codes "DATETIME" ∷ [])

-- `v == nil`
unfoldable pub is_null : Value → Bool
is_null null = true
is_null v = false

module _ ⦃fm : Formats⦄ where
  -- the `switch` on a value; a row that is too short has none
  unfoldable pub value_note : Str → Str → Option Value → Report → Report
  unfolding outside_date_time_range is_null
  value_note name base none r = r
  value_note name base (some v) r =
      if is_null v
      then add name (codes "NULL rendered as zero value (column is not Nullable)") r
      else if is_wide_int base && exceeds_int64 v
      then add name (codes "value exceeds int64 and is truncated") r
      else if is_timestamp base && outside_date_time_range v
      then add name (codes "timestamp outside DateTime range (1970-2106)") r
      else r

  -- the loop over the rows, at column `ci`
  unfoldable pub value_notes : Str → Str → ℕ → List (List Value) → Report → Report
  unfolding value_note
  value_notes name base ci [] r = r
  value_notes name base ci (row ∷ rows) r =
      value_notes name base ci rows (value_note name base (get_elem? row ci) r)

module _ ⦃u : Unicode⦄ ⦃fm : Formats⦄ where
  -- the loop over the columns
  unfoldable pub columns_notes : ℕ → List Column → List (List Value) → Report → Report
  unfolding value_notes base_type
  columns_notes ci [] rows r = r
  columns_notes ci (c ∷ cs) rows r =
      let base = base_type c.type in
      columns_notes (ci + 1) cs rows (value_notes c.name base ci rows (type_note c.name base r))

  -- `report`
  unfoldable pub report : QueryResult → Report
  unfolding columns_notes
  report res = columns_notes 0 res.cols res.rows new
