-- ===== src/Tests/Statements.antt =====
-- A MySQL connection on the database of the tests.
use spoofdb.Decimal.{print_int}
use spoofdb.Base.{◌≡◌, refl, true, false, Bool, List, [], ◌∷◌, ◌++◌, ◌⊎◌, inl}
use spoofdb.Base.Int.{pos}
use spoofdb.Text.{Str, codes, trim_space, same, to_upper, join, fields, contains}
use spoofdb.Value.{Value, int64}
use spoofdb.Engine.Run.{run_on}
use spoofdb.Mysql.Text.{
  escape_sql, backticks_to_quotes, substitute_args, is_show_warnings, quote_arg,
}
use spoofdb.Mysql.Text.Backticks.{backticks_to_quotes-literal}
use spoofdb.Mysql.Handler.{Handler, show_warnings, exec}
use spoofdb.Mysql.Handler.Warnings.{warnings_after, exec-show_warnings}
use spoofdb.Tests.Fixtures.{no_case, no_formats, database, engine}

abbrev before : Str
before = codes "SELECT `a`, "

backticks_to_quotes-literal_example :
    backticks_to_quotes
      (before ++ (b'\'' ∷ (escape_sql (codes "it's `x`") ++ b'\'' ∷ []) ++ codes " AS `b`"))
    ≡ backticks_to_quotes before
      ++ (b'\'' ∷ (escape_sql (codes "it's `x`") ++ b'\'' ∷ [])
          ++ backticks_to_quotes (codes " AS `b`"))
backticks_to_quotes-literal_example =
    backticks_to_quotes-literal before (codes "it's `x`") (codes " AS `b`") refl

abbrev asks : Str
asks = codes "SELECT '?', ?"

substitute_args_test : substitute_args asks (int64 (pos 7) ∷ []) ≡ codes "SELECT '?', 7"
unfolding substitute_args quote_arg print_int
substitute_args_test = refl

-- a result set is its rows
abbrev build : Bool → List Str → List (List Value) → List (List Value) ⊎ Str
build binary names rows = inl rows

abbrev handler : Handler (List Str)
handler = record { eng = engine; db = []; warns = codes "old" ∷ []; log = [] }

abbrev select : Str
select = codes "SELECT * FROM `t`"

abbrev show : Str
show = codes "show  warnings;"

exec-show_warnings_example :
    exec build database (exec build database handler select true).0 show false ≡ (
      (exec build database handler select true).0,
      show_warnings build (
          warnings_after build handler.warns
            (trim_space (backticks_to_quotes select))
            true
            (run_on database engine [] (backticks_to_quotes select)).2),
    )
unfolding is_show_warnings same to_upper join fields trim_space backticks_to_quotes contains
exec-show_warnings_example = exec-show_warnings build database handler select show true false refl
