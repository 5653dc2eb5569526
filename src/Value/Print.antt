-- ===== src/Value/Print.antt =====
-- `fmt.Sprint` on a value, and `%q` on a text.
use spoofdb.Base.{ℕ, ◌+◌, ◌-◌, ◌&&◌, ◌||◌, [], ◌∷◌, ◌++◌, Option, ltb, leb, ◌==◌, if◌then◌else◌}
use spoofdb.Base.Int.{ℤ}
use spoofdb.Text.{Str, codes}
use spoofdb.Decimal.{print_nat, print_int}
use spoofdb.Value.{
  Value, null, bool, int, int8, int16, int32, int64, uint, uint8, uint16, uint32, uint64, float32,
  float64, text, bytes, time, big_int, other,
}

-- "2006-01-02 15:04:05.999999", "2006-01-02 15:04:05" and "2006-01-02"
pub data Layout : Type 0 where
  micros seconds days : Layout

-- What the standard library prints and reads of floats (as IEEE bit patterns), times and characters
-- above ASCII.
pub record Formats : Type 0 where
  pub sprint_float32 : ℕ → Str
  pub sprint_float64 : ℕ → Str
  pub sprint_time : ℤ → Str
  pub sprint_bytes : Str → Str
  -- `%q` of one character
  pub quote_rune : ℕ → Str
  -- conversions of floats, and `strconv.ParseFloat` with its error ignored
  pub int64_of_float64 : ℕ → ℤ
  pub float64_of_float32 : ℕ → ℕ
  pub float32_of_float64 : ℕ → ℕ
  pub float64_of_int : ℤ → ℕ
  pub parse_float : Str → ℕ
  -- `strconv.FormatFloat(x, 'g', -1, 64)`
  pub format_float : ℕ → Str
  -- `time.Parse` and `Format`, and `math.Floor(d.Hours() / 24)` of a duration `d`
  pub parse_time : Layout → Str → Option ℤ
  pub format_time : Layout → ℤ → Str
  pub floor_days : ℤ → ℤ

module _ ⦃fm : Formats⦄ where
  -- `fmt.Sprint`
  unfoldable pub sprint : Value → Str
  sprint null = codes "<nil>"
  sprint (bool b) = if b then codes "true" else codes "false"
  sprint (int z) = print_int z
  sprint (int8 z) = print_int z
  sprint (int16 z) = print_int z
  sprint (int32 z) = print_int z
  sprint (int64 z) = print_int z
  sprint (uint n) = print_nat n
  sprint (uint8 n) = print_nat n
  sprint (uint16 n) = print_nat n
  sprint (uint32 n) = print_nat n
  sprint (uint64 n) = print_nat n
  sprint (float32 f) = fm.sprint_float32 f
  sprint (float64 f) = fm.sprint_float64 f
  sprint (text s) = s
  sprint (bytes s) = fm.sprint_bytes s
  sprint (time t) = fm.sprint_time t
  sprint (big_int z) = print_int z
  sprint (other s) = s

  abbrev hex_digit : ℕ → ℕ
  hex_digit d = if ltb d 10 then b'0' + d else b'a' + (d - 10)

  -- `strconv.Quote`, one character
  unfoldable pub quote_char : ℕ → Str
  quote_char c =
      if c == b'"' || c == b'\\'
      then b'\\' ∷ c ∷ []
      else if leb 128 c
      then fm.quote_rune c
      else if leb 32 c && ltb c 127
      then c ∷ []
      else if c == 7
      then codes "\\a"
      else if c == 8
      then codes "\\b"
      else if c == 9
      then codes "\\t"
      else if c == 10
      then codes "\\n"
      else if c == 11
      then codes "\\v"
      else if c == 12
      then codes "\\f"
      else if c == 13
      then codes "\\r"
      else if c == 127
      then codes "\\x7f"
      else if ltb c 16
      then codes "\\x0" ++ (hex_digit c ∷ [])
      else codes "\\x1" ++ (hex_digit (c - 16) ∷ [])

  abbrev quote_chars : Str → Str
  quote_chars [] = []
  quote_chars (c ∷ s) = quote_char c ++ quote_chars s

  -- `%q`
  unfoldable pub quote : Str → Str
  unfolding quote_char
  quote s = b'"' ∷ (quote_chars s ++ b'"' ∷ [])
