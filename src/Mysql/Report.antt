-- ===== src/Mysql/Report.antt =====
-- internal/mysql/fidelity.go: `report`.
use spoofdb.Base.{List, [], ◌∷◌, ◌++◌, if◌then◌else◌}
use spoofdb.Text.{Str, codes, Unicode, one_of}
use spoofdb.Value.{Column, QueryResult}
use spoofdb.Fidelity.{Report, new, add}
use spoofdb.Pg.Statement.{base_type}

-- the `switch` on the base type
abbrev type_note : Str → Str → Report → Report
type_note name base r =
    if one_of base (codes "BOOLEAN" ∷ codes "BOOL" ∷ [])
    then add name (codes "BOOLEAN shown as integer 0/1") r
    else if one_of base (codes "DECIMAL" ∷ codes "NUMERIC" ∷ [])
    then add name (codes "DECIMAL shown as text") r
    else if one_of base (codes "HUGEINT" ∷ codes "UHUGEINT" ∷ [])
    then add name (base ++ codes " shown as text") r
    else r

module _ ⦃u : Unicode⦄ where
  abbrev pub columns_notes : List Column → Report → Report
  columns_notes [] r = r
  columns_notes (c ∷ cs) r = columns_notes cs (type_note c.name (base_type c.type) r)

  -- `report`
  unfoldable pub report : QueryResult → Report
  unfolding base_type
  report res = columns_notes res.cols new
