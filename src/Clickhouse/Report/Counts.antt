-- ===== src/Clickhouse/Report/Counts.antt =====
-- How often each approximation of a ClickHouse reply is noted.
use spoofdb.Base.{ℕ, ◌+◌, List, [], ◌∷◌, ◌++◌}
use spoofdb.Text.{Str, Unicode}
use spoofdb.Value.{Value, Column}
use spoofdb.Value.Print.{Formats}
use spoofdb.Fidelity.{Report}
use spoofdb.Pg.Statement.{base_type}
use spoofdb.Clickhouse.Report.Reasons.{type_reasons, column_reasons}

abbrev pairs : Str → List Str → List (Str × Str)
pairs name [] = []
pairs name (r ∷ rs) = (name, r) ∷ pairs name rs

module _ ⦃u : Unicode⦄ ⦃fm : Formats⦄ where
  -- each approximation of a result, with the name of its column
  abbrev pub approximations : ℕ → List Column → List (List Value) → List (Str × Str)
  approximations ci [] rows = []
  approximations ci (c ∷ cs) rows =
      pairs c.name (type_reasons (base_type c.type) ++ column_reasons (base_type c.type) ci rows)
      ++ approximations (ci + 1) cs rows
