-- ===== src/Pg/Encode/Numbers.antt =====
-- What a client reads of the integers that `encodeBinary` writes.
use spoofdb.Base.{
  ℕ, zero, suc, ◌+◌, ◌-◌, ◌*◌, ◌/◌, ◌%◌, ◌^◌, ◌<◌, ◌≡◌, ◌≢◌, ◌⊎◌, refl, ◌∙◌, ap, Bool, true, false,
  [], ◌∷◌, Option, none, some, arith, ltb, ◌==◌, if◌then◌else◌, All, inl, inr, Bool-cases,
}
use spoofdb.Base.Int.{ℤ, pos, negsuc, clamp64}
use spoofdb.Text.{Str, is_space, trim_space}
use spoofdb.Text.Laws.{trim_none}
use spoofdb.Decimal.{is_int64, print_fuel, print_nat, print_int, parse_int64}
use spoofdb.Decimal.RoundTrip.{parse_int64-print_int}
use spoofdb.Value.{Value, null, big_int}
use spoofdb.Value.Print.{Formats, sprint}
use spoofdb.Pg.Encode.{low_bits, put_be, to_int, encode_binary, encode_value}

-- a big-endian number, behind `n`
abbrev pub read_be : ℕ → Str → ℕ
read_be n [] = n
read_be n (b ∷ bs) = read_be (n * 256 + b) bs

-- the signed integer of `w` bits, in two's complement
abbrev pub signed_of : ℕ → ℕ → ℤ
signed_of w n = if ltb n (2 ^ w / 2) then pos n else negsuc (2 ^ w - 1 - n)

-- the integers of `w` bits
abbrev pub fits : ℕ → ℤ → Bool
fits w (pos n) = ltb n (2 ^ w / 2)
fits w (negsuc n) = ltb n (2 ^ w / 2)

read_be-put_be_2 : (n : ℕ) → n < 2 ^ 16 → read_be 0 (put_be 2 n) ≡ n
unfolding put_be
read_be-put_be_2 n h = omega arith

read_be-put_be_4 : (n : ℕ) → n < 2 ^ 32 → read_be 0 (put_be 4 n) ≡ n
unfolding put_be
read_be-put_be_4 n h = omega arith

read_be-put_be_8 : (n : ℕ) → n < 2 ^ 64 → read_be 0 (put_be 8 n) ≡ n
unfolding put_be
read_be-put_be_8 n h = omega arith

-- the type OIDs of integers, and their width in bytes
abbrev pub int_width : ℕ → Option ℕ
int_width oid =
    if oid == 21 then some 2 else if oid == 23 then some 4 else if oid == 20 then some 8 else none

-- what a client makes of a binary integer
abbrev pub read_int : ℕ → Option Str → Option ℤ
read_int k none = none
read_int k (some bytes) = some (signed_of (8 * k) (read_be 0 bytes))

signed_of-low_bits_16 : (z : ℤ) → fits 16 z ≡ true → signed_of 16 (low_bits 16 z) ≡ z
unfolding low_bits
signed_of-low_bits_16 (pos n) h = ground arith
signed_of-low_bits_16 (negsuc n) h = ground arith

signed_of-low_bits_32 : (z : ℤ) → fits 32 z ≡ true → signed_of 32 (low_bits 32 z) ≡ z
unfolding low_bits
signed_of-low_bits_32 (pos n) h = ground arith
signed_of-low_bits_32 (negsuc n) h = ground arith

signed_of-low_bits_64 : (z : ℤ) → fits 64 z ≡ true → signed_of 64 (low_bits 64 z) ≡ z
unfolding low_bits
signed_of-low_bits_64 (pos n) h = ground arith
signed_of-low_bits_64 (negsuc n) h = ground arith

low_bits_lt_16 : (z : ℤ) → low_bits 16 z < 2 ^ 16
unfolding low_bits
low_bits_lt_16 (pos n) = omega arith
low_bits_lt_16 (negsuc n) = omega arith

low_bits_lt_32 : (z : ℤ) → low_bits 32 z < 2 ^ 32
unfolding low_bits
low_bits_lt_32 (pos n) = omega arith
low_bits_lt_32 (negsuc n) = omega arith

low_bits_lt_64 : (z : ℤ) → low_bits 64 z < 2 ^ 64
unfolding low_bits
low_bits_lt_64 (pos n) = omega arith
low_bits_lt_64 (negsuc n) = omega arith

int_width-cases :
    (oid k : ℕ)
    → int_width oid ≡ some k
    → ((oid ≡ 21) × (k ≡ 2)) ⊎ (((oid ≡ 23) × (k ≡ 4)) ⊎ ((oid ≡ 20) × (k ≡ 8)))
int_width-cases oid k h = ground arith

module _ ⦃fm : Formats⦄ where
  encode_value-binary :
      (v : Value) (oid : ℕ) → v ≢ null → encode_value v oid 1 ≡ some (encode_binary v oid)
  unfolding encode_value
  encode_value-binary null oid h = absurd (h refl)
  encode_value-binary _ oid h = refl

  read_int_of :
      (v : Value) (oid k : ℕ) (bytes : Str) (z : ℤ)
      → v ≢ null
      → encode_binary v oid ≡ bytes
      → signed_of (8 * k) (read_be 0 bytes) ≡ z
      → read_int k (encode_value v oid 1) ≡ some z
  read_int_of v oid k bytes z n e h = rw (encode_value-binary v oid n, e) (ap some h)

  read_int_21 :
      (v : Value)
      → v ≢ null
      → fits 16 (to_int v) ≡ true
      → read_int 2 (encode_value v 21 1) ≡ some (to_int v)
  read_int_21 v n h =
      read_int_of v 21 2 (put_be 2 (low_bits 16 (to_int v))) (to_int v) n
        (unfold encode_binary in refl)
        (rw (read_be-put_be_2 _ (low_bits_lt_16 (to_int v))) (signed_of-low_bits_16 (to_int v) h))

  read_int_23 :
      (v : Value)
      → v ≢ null
      → fits 32 (to_int v) ≡ true
      → read_int 4 (encode_value v 23 1) ≡ some (to_int v)
  read_int_23 v n h =
      read_int_of v 23 4 (put_be 4 (low_bits 32 (to_int v))) (to_int v) n
        (unfold encode_binary in refl)
        (rw (read_be-put_be_4 _ (low_bits_lt_32 (to_int v))) (signed_of-low_bits_32 (to_int v) h))

  read_int_20 :
      (v : Value)
      → v ≢ null
      → fits 64 (to_int v) ≡ true
      → read_int 8 (encode_value v 20 1) ≡ some (to_int v)
  read_int_20 v n h =
      read_int_of v 20 8 (put_be 8 (low_bits 64 (to_int v))) (to_int v) n
        (unfold encode_binary in refl)
        (rw (read_be-put_be_8 _ (low_bits_lt_64 (to_int v))) (signed_of-low_bits_64 (to_int v) h))

  -- A value that is not NULL, sent in binary as an int2, int4 or int8, is read by the client as the
  -- integer that `toInt` makes of it, if that integer fits the type.
  pub read_int-encode_value :
      (v : Value) (oid k : ℕ)
      → v ≢ null
      → int_width oid ≡ some k
      → fits (8 * k) (to_int v) ≡ true
      → read_int k (encode_value v oid 1) ≡ some (to_int v)
  read_int-encode_value v oid k n w h = elim (int_width-cases oid k w) [
    | inl (a, b) ↦ rw (a, b) (read_int_21 v n (rw b at h))
    | inr (inl (a, b)) ↦ rw (a, b) (read_int_23 v n (rw b at h))
    | inr (inr (a, b)) ↦ rw (a, b) (read_int_20 v n (rw b at h))
  ]

-- no character of a printed integer is blank
abbrev Solid : Str → Type 0
Solid = All (λ c. is_space c ≡ false)

print_fuel-Solid : (f n : ℕ) (out : Str) → Solid out → Solid (print_fuel f n out)
unfolding print_fuel is_space
print_fuel-Solid zero n out h = h
print_fuel-Solid (suc f) n out h =
    ground (arith, print_fuel-Solid f (n / 10) ((b'0' + n % 10) ∷ out))

print_int-Solid : (z : ℤ) → Solid (print_int z)
unfolding print_int print_nat is_space
print_int-Solid (pos n) = print_fuel-Solid (suc n) n [] tt
print_int-Solid (negsuc n) = (refl, print_fuel-Solid (suc (suc n)) (suc n) [] tt)

trim_space-Solid : (s : Str) → Solid s → trim_space s ≡ s
unfolding trim_space
trim_space-Solid s h = trim_none is_space s h

module _ ⦃fm : Formats⦄ where
  pub to_int-big_int : (z : ℤ) → to_int (big_int z) ≡ clamp64 z
  unfolding to_int sprint
  to_int-big_int z =
      ap parse_int64 (trim_space-Solid (print_int z) (print_int-Solid z)) ∙ parse_int64-print_int z

  fits-clamp64 : (z : ℤ) → fits 64 (clamp64 z) ≡ true
  fits-clamp64 (pos n) = ground arith
  fits-clamp64 (negsuc n) = ground arith

  pub clamp_fits : (z : ℤ) → is_int64 z ≡ true → clamp64 z ≡ z
  clamp_fits (pos n) h = ground arith
  clamp_fits (negsuc n) h = ground arith

  clamp_ne_zero : (z : ℤ) → is_int64 z ≡ false → clamp64 z ≢ pos 0
  clamp_ne_zero (pos n) h e = ground arith
  clamp_ne_zero (negsuc n) h e = ground arith

  -- A HUGEINT, which the driver scans as a big integer, is sent in binary as the nearest int64: as
  -- itself if it fits, and else as a number that is not 0.
  pub read_int-big_int :
      (z : ℤ)
      → (read_int 8 (encode_value (big_int z) 20 1) ≡ some (clamp64 z))
        × ((clamp64 z ≡ z) ⊎ ((is_int64 z ≡ false) × (clamp64 z ≢ pos 0)))
  read_int-big_int z = (
    read_int_20 (big_int z) (cc) (rw to_int-big_int (fits-clamp64 z)) ∙ ap some (to_int-big_int z),
    elim (Bool-cases (is_int64 z)) [
      | inl y ↦ inl (clamp_fits z y)
      | inr n ↦ inr (n, clamp_ne_zero z n)
    ],
  )
