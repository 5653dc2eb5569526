-- ===== src/Tests/Blocks.antt =====
-- Results on the ClickHouse wire.
use spoofdb.Base.{◌≡◌, refl, true, false, [], ◌∷◌, length}
use spoofdb.Base.Int.{pos}
use spoofdb.Text.{Str, codes, one_of, same, until, to_upper}
use spoofdb.Value.{null, QueryResult, big_int, text}
use spoofdb.Fidelity.{exceeds_int64}
use spoofdb.Clickhouse.Columns.{build_input, cell, cell_int64, kind_of}
use spoofdb.Clickhouse.Columns.Shape.{IsBuilt, build_input-IsBuilt}
use spoofdb.Clickhouse.Report.{is_null}
use spoofdb.Clickhouse.Report.Wide.{cell-big_int}
use spoofdb.Clickhouse.Report.Counts.{approximations}
use spoofdb.Fidelity.Count.{occurrences}
use spoofdb.Pg.Statement.{base_type}
use spoofdb.Tests.Fixtures.{no_case, no_formats}

abbrev result : QueryResult
result = record {
  cols =
      record { name = codes "n"; type = codes "HUGEINT" }
      ∷ record { name = codes "s"; type = codes "VARCHAR" }
      ∷ [];
  rows = (big_int (pos 5) ∷ text (codes "a") ∷ []) ∷ (big_int (pos 6) ∷ text (codes "b") ∷ []) ∷ [];
}

build_input-IsBuilt_example :
    IsBuilt (length result.cols) (length result.rows) (build_input result true)
    × IsBuilt (length result.cols) 0 (build_input result false)
build_input-IsBuilt_example = build_input-IsBuilt result (refl, (refl, tt))

cell-big_int_example : cell (kind_of (codes "HUGEINT")) (big_int (pos 5)) ≡ cell_int64 (pos 5)
unfolding one_of same is_null exceeds_int64
cell-big_int_example = cell-big_int (codes "HUGEINT") (pos 5) refl refl

-- two NULLs in a column of decimals
abbrev prices : QueryResult
prices = record {
  cols = record { name = codes "p"; type = codes "DECIMAL(5,2)" } ∷ [];
  rows = (null ∷ []) ∷ (text (codes "1.50") ∷ []) ∷ (null ∷ []) ∷ [];
}

abbrev null_reason : Str
null_reason = codes "NULL rendered as zero value (column is not Nullable)"

null_test : occurrences (codes "p") null_reason (approximations 0 prices.cols prices.rows) ≡ 2
unfolding same one_of until to_upper exceeds_int64 is_null base_type
null_test = refl
