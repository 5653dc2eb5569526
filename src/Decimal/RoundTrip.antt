-- ===== src/Decimal/RoundTrip.antt =====
-- A number is read back from its print.
use spoofdb.Base.{
  ℕ, zero, suc, ◌+◌, ◌-◌, ◌*◌, ◌/◌, ◌%◌, ◌^◌, ◌<◌, ◌≤◌, ◌≡◌, refl, sym, ◌∙◌, ap, Bool, true, false,
  [], ◌∷◌, some, ltb, if◌then◌else◌, arith,
}
use spoofdb.Base.Int.{ℤ, pos, negsuc, neg, clamp64}
use spoofdb.Text.{Str}
use spoofdb.Decimal.{
  is_digit, print_fuel, print_nat, print_int, read_digits, read_nat, signed, read_big, out_of_range,
  parsed, parse_digits, parse_uint, positive, negative, parse_int64,
}

read_digits-print_fuel :
    (f n : ℕ) (out : Str) → n < f → read_digits 0 (print_fuel f n out) ≡ read_digits n out
unfolding print_fuel read_digits
read_digits-print_fuel zero n out h = elim h [ ]
read_digits-print_fuel (suc f) n out h =
    ground (arith, read_digits-print_fuel f (n / 10) ((b'0' + n % 10) ∷ out))

-- the print starts with a digit
starts_digit : Str → Bool
starts_digit [] = false
starts_digit (c ∷ s) = is_digit c

starts_digit-print_fuel : (f n : ℕ) (out : Str) → n < f → starts_digit (print_fuel f n out) ≡ true
unfolding print_fuel starts_digit
starts_digit-print_fuel zero n out h = elim h [ ]
starts_digit-print_fuel (suc f) n out h =
    ground (arith, starts_digit-print_fuel f (n / 10) ((b'0' + n % 10) ∷ out))

read_nat_digits : (s : Str) → starts_digit s ≡ true → read_nat s ≡ read_digits 0 s
unfolding read_nat starts_digit
read_nat_digits [] h = cc
read_nat_digits (c ∷ s) h = refl

read_big_digits : (s : Str) → starts_digit s ≡ true → read_big s ≡ signed pos (read_nat s)
unfolding read_big starts_digit
read_big_digits [] h = cc
read_big_digits (c ∷ s) h = ground arith

starts_digit-print_nat : (n : ℕ) → starts_digit (print_nat n) ≡ true
unfolding print_nat
starts_digit-print_nat n = starts_digit-print_fuel (suc n) n [] (omega arith)

pub read_nat-print_nat : (n : ℕ) → read_nat (print_nat n) ≡ some n
read_nat-print_nat n =
    read_nat_digits _ (starts_digit-print_nat n)
    ∙ (unfold print_nat read_digits in read_digits-print_fuel (suc n) n [] (omega arith))

-- Every integer, of any size, is read back from its print.
pub read_big-print_int : (z : ℤ) → read_big (print_int z) ≡ some z
unfolding print_int
read_big-print_int (pos n) =
    read_big_digits _ (starts_digit-print_nat n) ∙ ap (signed pos) (read_nat-print_nat n)
read_big-print_int (negsuc n) = unfold read_big in ap (signed neg) (read_nat-print_nat (suc n))

le-read_digits : (n m : ℕ) (s : Str) → read_digits n s ≡ some m → n ≤ m
unfolding read_digits
le-read_digits n m [] h = ground arith
le-read_digits n m (c ∷ s) h = ground (arith, le-read_digits (n * 10 + (c - b'0')) m s)

-- the range check refuses what does not fit and nothing else
parse_digits_read :
    (n m : ℕ) (s : Str)
    → n < 2 ^ 64
    → read_digits n s ≡ some m
    → parse_digits n s ≡ (if ltb m (2 ^ 64) then parsed m else out_of_range)
unfolding read_digits parse_digits
parse_digits_read n m [] b h = ground arith
parse_digits_read n m (c ∷ s) b h =
    ground
      (arith, parse_digits_read (n * 10 + (c - b'0')) m s, le-read_digits (n * 10 + (c - b'0')) m s)

parse_uint_digits : (s : Str) → starts_digit s ≡ true → parse_uint s ≡ parse_digits 0 s
unfolding parse_uint starts_digit
parse_uint_digits [] h = cc
parse_uint_digits (c ∷ s) h = refl

parse_uint-print_nat :
    (n : ℕ) → parse_uint (print_nat n) ≡ (if ltb n (2 ^ 64) then parsed n else out_of_range)
parse_uint-print_nat n =
    parse_uint_digits (print_nat n) (starts_digit-print_nat n)
    ∙ parse_digits_read 0 n (print_nat n) (omega arith)
        (sym (read_nat_digits _ (starts_digit-print_nat n)) ∙ read_nat-print_nat n)

parse_int64_digits : (s : Str) → starts_digit s ≡ true → parse_int64 s ≡ positive (parse_uint s)
unfolding parse_int64 starts_digit
parse_int64_digits [] h = cc
parse_int64_digits (c ∷ s) h = ground arith

positive_clamp :
    (n : ℕ) → positive (if ltb n (2 ^ 64) then parsed n else out_of_range) ≡ clamp64 (pos n)
positive_clamp n = ground arith

negative_clamp :
    (n : ℕ)
    → negative (if ltb (suc n) (2 ^ 64) then parsed (suc n) else out_of_range) ≡ clamp64 (negsuc n)
negative_clamp n = ground arith

-- `ParseInt` with its error ignored gives the printed integer, or the nearest `int64` where it does
-- not fit.
pub parse_int64-print_int : (z : ℤ) → parse_int64 (print_int z) ≡ clamp64 z
unfolding print_int
parse_int64-print_int (pos n) =
    parse_int64_digits _ (starts_digit-print_nat n)
    ∙ ap positive (parse_uint-print_nat n)
    ∙ positive_clamp n
parse_int64-print_int (negsuc n) =
    unfold parse_int64 in (ap negative (parse_uint-print_nat (suc n)) ∙ negative_clamp n)
