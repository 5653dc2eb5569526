-- ===== src/Mysql/Text.antt =====
-- internal/mysql/handler.go: the rewriting of statements before they reach DuckDB.
pub mod Backticks
pub mod Placeholders
use spoofdb.Base.{
  ℕ, zero, suc, ◌+◌, Bool, true, false, not, ◌&&◌, ◌||◌, List, [], ◌∷◌, ◌++◌, Option, none, some,
  ◌==◌, if◌then◌else◌,
}
use spoofdb.Text.{
  Str, codes, Unicode, same, one_of, to_upper, any_of, until, contains, has_prefix, replace_char,
  count_char, join, fields,
}
use spoofdb.Decimal.{print_nat, print_int}
use spoofdb.Value.{Value, null, bool, int64, uint64, float64, text, bytes, time}
use spoofdb.Value.Print.{Formats, micros, sprint}

abbrev pub backtick : ℕ
backtick = 96

-- the loop of `backticksToQuotes`; the flag is `inStr`
unfoldable pub requote : Bool → Str → Str
requote in_str [] = []
requote in_str (c ∷ s) =
    (if c == b'\'' then c else if c == backtick && not in_str then b'"' else c)
    ∷ requote (if c == b'\'' then not in_str else in_str) s

-- `backticksToQuotes`
unfoldable pub backticks_to_quotes : Str → Str
unfolding requote
backticks_to_quotes q = if not (contains q (backtick ∷ [])) then q else requote false q

-- `escapeSQL`
unfoldable pub escape_sql : Str → Str
escape_sql s = replace_char b'\'' (codes "''") s

abbrev in_quotes : Str → Str
in_quotes s = b'\'' ∷ (s ++ b'\'' ∷ [])

module _ ⦃fm : Formats⦄ where
  -- `quoteArg`
  unfoldable pub quote_arg : Value → Str
  unfolding escape_sql
  quote_arg null = codes "NULL"
  quote_arg (int64 z) = print_int z
  quote_arg (uint64 n) = print_nat n
  quote_arg (float64 f) = fm.format_float f
  quote_arg (bool b) = if b then codes "1" else codes "0"
  quote_arg (time t) = in_quotes (fm.format_time micros t)
  quote_arg (bytes s) = in_quotes (escape_sql s)
  quote_arg (text s) = in_quotes (escape_sql s)
  quote_arg v = in_quotes (escape_sql (sprint v))

-- is this the start of a literal?
abbrev pub opens : ℕ → Bool
opens c = c == b'\'' || (c == b'"' || c == backtick)

abbrev not_last : Str → Bool
not_last [] = false
not_last (c ∷ s) = true

-- What one round of the loop of `substituteArgs` writes, the value of `quote` behind it, whether the
-- next character is copied as it is, and the arguments that are left.
pub record Round : Type 0 where
  pub out : Str
  pub quote : ℕ
  pub escaped : Bool
  pub args : List Value

module _ ⦃fm : Formats⦄ where
  abbrev placed : ℕ → List Value → Round
  placed c [] = record { out = c ∷ []; quote = 0; escaped = false; args = [] }
  placed c (v ∷ args) = record { out = quote_arg v; quote = 0; escaped = false; args = args }

  unfoldable pub round : ℕ → List Value → ℕ → Str → Round
  round quote args c s =
      if not (quote == 0)
      then if c == b'\\' && not_last s
        then record { out = c ∷ []; quote = quote; escaped = true; args = args }
        else if c == quote
        then record { out = c ∷ []; quote = 0; escaped = false; args = args }
        else record { out = c ∷ []; quote = quote; escaped = false; args = args }
      else if opens c
      then record { out = c ∷ []; quote = c; escaped = false; args = args }
      else if c == b'?'
      then placed c args
      else record { out = c ∷ []; quote = 0; escaped = false; args = args }

  unfoldable pub substitute_from : ℕ → Bool → List Value → Str → Str
  unfolding round
  substitute_from quote escaped args [] = []
  substitute_from quote true args (c ∷ s) = c ∷ substitute_from quote false args s
  substitute_from quote false args (c ∷ s) =
      let r = round quote args c s in r.out ++ substitute_from r.quote r.escaped r.args s

  -- `substituteArgs`
  unfoldable pub substitute_args : Str → List Value → Str
  unfolding substitute_from
  substitute_args q [] = q
  substitute_args q (v ∷ args) = substitute_from 0 false (v ∷ args) q

-- `HandleStmtPrepare`: the number of parameters that it reports
unfoldable pub stmt_params : Str → ℕ
stmt_params q = count_char b'?' q

module _ ⦃u : Unicode⦄ where
  -- `firstWord`
  unfoldable pub first_word : Str → Str
  first_word q = to_upper (until (any_of (codes " \t\r\n")) q)

  -- `strings.TrimSuffix(s, ";")`
  abbrev trim_semicolon : Str → Str
  trim_semicolon [] = []
  trim_semicolon (c ∷ []) = if c == b';' then [] else c ∷ []
  trim_semicolon (c ∷ d ∷ s) = c ∷ trim_semicolon (d ∷ s)

  -- `isShowWarnings`
  unfoldable pub is_show_warnings : Str → Bool
  is_show_warnings q =
      let w = trim_semicolon (to_upper (join (codes " ") (fields q))) in
      same w (codes "SHOW WARNINGS") || has_prefix w (codes "SHOW WARNINGS ")

-- `isSessionNoop`
unfoldable pub is_session_noop : Str → Bool
is_session_noop word = one_of word (
    codes "SET"
    ∷ codes "USE"
    ∷ codes "BEGIN"
    ∷ codes "START"
    ∷ codes "COMMIT"
    ∷ codes "ROLLBACK"
    ∷ [])
