-- ===== src/Pg/Report/Wide.antt =====
-- Which results internal/pg/fidelity.go finds nothing to report of.
use spoofdb.Base.{
  ℕ, ◌+◌, ◌≡◌, refl, Bool, true, not, ◌&&◌, ◌||◌, List, [], ◌∷◌, ◌++◌, is_some, arith, get_elem?,
  Bool-cases, inl, inr,
}
use spoofdb.Text.{Str, codes, Unicode, one_of}
use spoofdb.Value.{Value, Column, QueryResult}
use spoofdb.Value.Print.{Formats}
use spoofdb.Fidelity.{Report, new, is_empty}
use spoofdb.Fidelity.Blank.{Step, add-Step, skip-Step, then-Step}
use spoofdb.Pg.Statement.{base_type}
use spoofdb.Pg.Report.{type_note, is_wide, wide_notes, column_notes, columns_notes, report}

-- the DuckDB types of decimals and of unsigned integers, and those of the types without an own OID
-- that `report` tells of
abbrev pub is_lossy : Str → Bool
is_lossy base =
    one_of base (codes "DECIMAL" ∷ codes "NUMERIC" ∷ [])
    || (one_of base (
          codes "UTINYINT"
          ∷ codes "USMALLINT"
          ∷ codes "UINTEGER"
          ∷ codes "UBIGINT"
          ∷ codes "UHUGEINT"
          ∷ [])
        || one_of base
            (codes "TIME" ∷ codes "INTERVAL" ∷ codes "UUID" ∷ codes "BLOB" ∷ codes "BIT" ∷ []))

abbrev pub is_wide_type : Str → Bool
is_wide_type base = one_of base (codes "HUGEINT" ∷ codes "UHUGEINT" ∷ codes "UBIGINT" ∷ [])

type_note-Step :
    (name base : Str) (r : Report)
    → is_some r ≡ true
    → Step (not (is_lossy base)) r (type_note name base r)
type_note-Step name base r h = ground (
  arith,
  add-Step name (codes "DECIMAL shown as float8; precision may be lost") r,
  add-Step name (codes "unsigned integer shown as signed") r,
  add-Step name (base ++ codes " shown as text") r,
)

module _ ⦃u : Unicode⦄ ⦃fm : Formats⦄ where
  -- each row has, at column `ci`, no value beyond int64
  abbrev pub is_narrow : ℕ → List (List Value) → Bool
  is_narrow ci [] = true
  is_narrow ci (row ∷ rows) = not (is_wide (get_elem? row ci)) && is_narrow ci rows

  -- from the `ci`th on, each column has a type that PostgreSQL has too, and the values of a wide
  -- column are all of an int64
  abbrev pub is_exact : ℕ → List Column → List (List Value) → Bool
  is_exact ci [] rows = true
  is_exact ci (c ∷ cs) rows =
      not (is_lossy (base_type c.type))
      && ((not (is_wide_type (base_type c.type)) || is_narrow ci rows) && is_exact (ci + 1) cs rows)

  wide_notes-Step :
      (name : Str) (ci : ℕ) (rows : List (List Value)) (r : Report)
      → is_some r ≡ true
      → Step (is_narrow ci rows) r (wide_notes name ci rows r)
  unfolding wide_notes
  wide_notes-Step name ci [] r h = skip-Step r h
  wide_notes-Step name ci (row ∷ rows) r h = elim (Bool-cases (is_wide (get_elem? row ci))) [
    | inl y ↦
        let first = add-Step name (codes "value exceeds int64 and is sent as 0") r h in
        rw y (then-Step _ _ _ _ _ first (wide_notes-Step name ci rows _ first.0))
    | inr n ↦ rw n (then-Step _ _ _ _ _ (skip-Step r h) (wide_notes-Step name ci rows r h))
  ]

  column_notes-Step :
      (ci : ℕ) (c : Column) (rows : List (List Value)) (r : Report)
      → is_some r ≡ true
      → Step
          (not (is_lossy (base_type c.type))
            && (not (is_wide_type (base_type c.type)) || is_narrow ci rows))
          r
          (column_notes ci c rows r)
  unfolding column_notes
  column_notes-Step ci c rows r h =
      let base = base_type c.type in
      let first = type_note-Step c.name base r h in
      elim (Bool-cases (is_wide_type base)) [
        | inl y ↦ rw y (then-Step _ _ _ _ _ first (wide_notes-Step c.name ci rows _ first.0))
        | inr n ↦ rw n (then-Step _ _ _ _ _ first (skip-Step _ first.0))
      ]

  columns_notes-Step :
      (ci : ℕ) (cs : List Column) (rows : List (List Value)) (r : Report)
      → is_some r ≡ true
      → Step (is_exact ci cs rows) r (columns_notes ci cs rows r)
  columns_notes-Step ci [] rows r h = skip-Step r h
  columns_notes-Step ci (c ∷ cs) rows r h =
      let first = column_notes-Step ci c rows r h in
      let more = columns_notes-Step (ci + 1) cs rows (column_notes ci c rows r) first.0 in
      (more.0, ground arith)

  -- The report of a result is empty exactly if no column has the type DECIMAL, NUMERIC, UTINYINT,
  -- USMALLINT, UINTEGER, UBIGINT, UHUGEINT, TIME, INTERVAL, UUID, BLOB or BIT, and no row has a value
  -- beyond int64 in a column of type HUGEINT (or of UBIGINT or UHUGEINT).
  pub report-is_exact : (res : QueryResult) → is_empty (report res) ≡ is_exact 0 res.cols res.rows
  unfolding report is_empty
  report-is_exact res = (columns_notes-Step 0 res.cols res.rows new refl).1
