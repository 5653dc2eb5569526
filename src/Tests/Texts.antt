-- ===== src/Tests/Texts.antt =====
-- Numbers, the parameters of statements and the values on the wire.
use spoofdb.Base.{◌≡◌, ◌≢◌, ◌⊎◌, refl, false, [], ◌∷◌, ◌++◌, ◌≤◌, ◌^◌, ◌-◌, none, some, arith}
use spoofdb.Base.Int.{pos, negsuc, clamp64}
use spoofdb.Text.{Str, codes, replace_char, one_of, same, until, to_upper}
use spoofdb.Decimal.{is_int64, print_int, read_big, parse_int64}
use spoofdb.Decimal.RoundTrip.{read_big-print_int, parse_int64-print_int}
use spoofdb.Value.{big_int, int64, QueryResult}
use spoofdb.Fidelity.{is_empty, exceeds_int64, add}
use spoofdb.Pg.Params.{
  max_param_index, quoted, scan_params, substitute_params, scan_from, round, atoi, param_literal,
}
use spoofdb.Pg.Params.Reference.{top_index, scan_params-top_index}
use spoofdb.Pg.Params.Free.{max_param_index-substitute_params}
use spoofdb.Pg.Params.Literal.{literal, literal-quoted}
use spoofdb.Pg.Encode.{encode_value}
use spoofdb.Pg.Encode.Numbers.{read_int, read_int-encode_value, read_int-big_int}
use spoofdb.Pg.Report.{report}
use spoofdb.Pg.Report.Wide.{is_exact, report-is_exact}
use spoofdb.Tests.Fixtures.{no_case, no_formats}

read_big-print_int_example : read_big (print_int (negsuc 41)) ≡ some (negsuc 41)
read_big-print_int_example = read_big-print_int (negsuc 41)

parse_int64-print_int_example : parse_int64 (print_int (pos (2 ^ 64))) ≡ pos (2 ^ 63 - 1)
parse_int64-print_int_example = parse_int64-print_int (pos (2 ^ 64))

abbrev two_params : Str
two_params = codes "SELECT '$9', $1 WHERE a = $2"

max_param_index_test : max_param_index two_params ≡ 2
unfolding max_param_index scan_params scan_from round atoi
max_param_index_test = refl

substitute_params_test :
    substitute_params two_params (some (codes "it's") ∷ none ∷ [])
    ≡ codes "SELECT '$9', 'it''s' WHERE a = NULL"
unfolding substitute_params scan_params scan_from round param_literal atoi quoted replace_char
substitute_params_test = refl

scan_params-top_index_example : (scan_params two_params none).1 ≡ top_index 0 two_params
scan_params-top_index_example = scan_params-top_index two_params none

max_param_index-substitute_params_example :
    max_param_index (substitute_params two_params (some (codes "'; $3") ∷ none ∷ [])) ≡ 0
max_param_index-substitute_params_example =
    max_param_index-substitute_params two_params (some (codes "'; $3") ∷ none ∷ [])

literal-quoted_example :
    literal (quoted (codes "it's") ++ codes ", 2") ≡ some (codes "it's", codes ", 2")
literal-quoted_example = literal-quoted (codes "it's") (codes ", 2") refl

max_param_index_le : max_param_index two_params ≤ 2
max_param_index_le = omega (arith, max_param_index_test)

read_int-encode_value_example : read_int 2 (encode_value (int64 (negsuc 4)) 21 1) ≡ some (negsuc 4)
unfolding encode_value
read_int-encode_value_example = read_int-encode_value (int64 (negsuc 4)) 21 2 (cc) refl refl

read_int-big_int_example :
    (read_int 8 (encode_value (big_int (pos (2 ^ 70))) 20 1) ≡ some (clamp64 (pos (2 ^ 70))))
    × ((clamp64 (pos (2 ^ 70)) ≡ pos (2 ^ 70))
        ⊎ ((is_int64 (pos (2 ^ 70)) ≡ false) × (clamp64 (pos (2 ^ 70)) ≢ pos 0)))
read_int-big_int_example = read_int-big_int (pos (2 ^ 70))

-- the second row has a value beyond int64
abbrev counts : QueryResult
counts = record {
  cols = record { name = codes "n"; type = codes "HUGEINT" } ∷ [];
  rows = (big_int (pos 5) ∷ []) ∷ (big_int (pos (2 ^ 63)) ∷ []) ∷ [];
}

report-is_exact_example : is_empty (report counts) ≡ is_exact 0 counts.cols counts.rows
report-is_exact_example = report-is_exact counts

report_test : is_empty (report counts) ≡ false
unfolding is_empty report one_of same until to_upper exceeds_int64 add
report_test = refl
