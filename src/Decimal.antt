-- ===== src/Decimal.antt =====
-- Decimal numbers in text: what the program uses of Go's `fmt.Sprint` on integers, of
-- `strconv.ParseInt` and of `big.Int.SetString`.
pub mod RoundTrip
use spoofdb.Base.{
  ℕ, zero, suc, ◌+◌, ◌-◌, ◌*◌, ◌/◌, ◌%◌, ◌^◌, Bool, true, false, ◌&&◌, ◌||◌, List, [], ◌∷◌, ◌++◌,
  Option, none, some, ltb, leb, ◌==◌, if◌then◌else◌,
}
use spoofdb.Base.Int.{ℤ, pos, negsuc, neg}
use spoofdb.Text.{Str}

abbrev pub is_digit : ℕ → Bool
is_digit c = leb b'0' c && leb c b'9'

-- the digits of `n` in front of `out`, on fuel
unfoldable pub print_fuel : ℕ → ℕ → Str → Str
print_fuel zero n out = out
print_fuel (suc f) n out =
    let more = print_fuel f (n / 10) ((b'0' + n % 10) ∷ out) in
    if ltb n 10 then (b'0' + n) ∷ out else more

-- `n` is enough fuel and one: `n / 10 < n`
unfoldable pub print_nat : ℕ → Str
unfolding print_fuel
print_nat n = print_fuel (suc n) n []

unfoldable pub print_int : ℤ → Str
unfolding print_nat
print_int (pos n) = print_nat n
print_int (negsuc n) = b'-' ∷ print_nat (suc n)

-- the number that digits spell behind `n`, if they are all digits
unfoldable pub read_digits : ℕ → Str → Option ℕ
read_digits n [] = some n
read_digits n (c ∷ s) =
    let rest = read_digits (n * 10 + (c - b'0')) s in if is_digit c then rest else none

-- one digit or more
unfoldable pub read_nat : Str → Option ℕ
unfolding read_digits
read_nat [] = none
read_nat (c ∷ s) = read_digits 0 (c ∷ s)

abbrev signed : (ℕ → ℤ) → Option ℕ → Option ℤ
signed f none = none
signed f (some n) = some (f n)

-- `new(big.Int).SetString(s, 10)`
unfoldable pub read_big : Str → Option ℤ
unfolding read_nat
read_big [] = none
read_big (c ∷ s) =
    if c == b'-'
    then signed neg (read_nat s)
    else if c == b'+'
    then signed pos (read_nat s)
    else signed pos (read_nat (c ∷ s))

-- `x.IsInt64()`
abbrev pub is_int64 : ℤ → Bool
is_int64 (pos n) = ltb n (2 ^ 63)
is_int64 (negsuc n) = ltb n (2 ^ 63)

-- what `strconv.ParseUint` finds: a character that is no digit, a number that does not fit (found
-- first if it comes first), or the number
pub data Parsed : Type 0 where
  bad_syntax out_of_range : Parsed
  parsed : ℕ → Parsed

unfoldable pub parse_digits : ℕ → Str → Parsed
parse_digits n [] = parsed n
parse_digits n (c ∷ s) =
    let n' = n * 10 + (c - b'0') in
    let rest = parse_digits n' s in
    if is_digit c then if ltb n' (2 ^ 64) then rest else out_of_range else bad_syntax

unfoldable pub parse_uint : Str → Parsed
unfolding parse_digits
parse_uint [] = bad_syntax
parse_uint (c ∷ s) = parse_digits 0 (c ∷ s)

-- `n, _ := strconv.ParseInt(s, 10, 64)`: 0 for what is no number, the nearest bound out of range
abbrev positive : Parsed → ℤ
positive bad_syntax = pos 0
positive out_of_range = pos (2 ^ 63 - 1)
positive (parsed n) = if ltb n (2 ^ 63) then pos n else pos (2 ^ 63 - 1)

abbrev negative : Parsed → ℤ
negative bad_syntax = pos 0
negative out_of_range = negsuc (2 ^ 63 - 1)
negative (parsed n) = if leb n (2 ^ 63) then neg n else negsuc (2 ^ 63 - 1)

unfoldable pub parse_int64 : Str → ℤ
unfolding parse_uint
parse_int64 [] = pos 0
parse_int64 (c ∷ s) =
    if c == b'-'
    then negative (parse_uint s)
    else if c == b'+'
    then positive (parse_uint s)
    else positive (parse_uint (c ∷ s))
