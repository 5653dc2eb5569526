-- ===== src/Pg/Report.antt =====
-- internal/pg/fidelity.go: `report`.
pub mod Wide
use spoofdb.Base.{
  ℕ, ◌+◌, Bool, false, List, [], ◌∷◌, ◌++◌, Option, none, some, if◌then◌else◌, get_elem?,
}
use spoofdb.Text.{Str, codes, Unicode, one_of}
use spoofdb.Value.{Value, Column, QueryResult}
use spoofdb.Value.Print.{Formats}
use spoofdb.Fidelity.{Report, new, add, exceeds_int64}
use spoofdb.Pg.Statement.{base_type}

-- the `switch` on the base type
abbrev type_note : Str → Str → Report → Report
type_note name base r =
    if one_of base (codes "DECIMAL" ∷ codes "NUMERIC" ∷ [])
    then add name (codes "DECIMAL shown as float8; precision may be lost") r
    else if one_of base (
        codes "UTINYINT"
        ∷ codes "USMALLINT"
        ∷ codes "UINTEGER"
        ∷ codes "UBIGINT"
        ∷ codes "UHUGEINT"
        ∷ [])
    then add name (codes "unsigned integer shown as signed") r
    else if one_of base
        (codes "TIME" ∷ codes "INTERVAL" ∷ codes "UUID" ∷ codes "BLOB" ∷ codes "BIT" ∷ [])
    then add name (base ++ codes " shown as text") r
    else r

module _ ⦃u : Unicode⦄ ⦃fm : Formats⦄ where
  abbrev is_wide : Option Value → Bool
  is_wide none = false
  is_wide (some v) = exceeds_int64 v

  -- the loop over the rows, at column `ci`
  unfoldable pub wide_notes : Str → ℕ → List (List Value) → Report → Report
  wide_notes name ci [] r = r
  wide_notes name ci (row ∷ more) r = wide_notes name ci more (
      if is_wide (get_elem? row ci)
      then add name (codes "value exceeds int64 and is sent as 0") r
      else r)

  -- one round of the loop over the columns
  unfoldable pub column_notes : ℕ → Column → List (List Value) → Report → Report
  unfolding wide_notes base_type
  column_notes ci c rows r =
      let base = base_type c.type in
      let noted = type_note c.name base r in
      if one_of base (codes "HUGEINT" ∷ codes "UHUGEINT" ∷ codes "UBIGINT" ∷ [])
      then wide_notes c.name ci rows noted
      else noted

  abbrev columns_notes : ℕ → List Column → List (List Value) → Report → Report
  columns_notes ci [] rows r = r
  columns_notes ci (c ∷ cs) rows r = columns_notes (ci + 1) cs rows (column_notes ci c rows r)

  -- `report`
  unfoldable pub report : QueryResult → Report
  unfolding column_notes
  report res = columns_notes 0 res.cols res.rows new
