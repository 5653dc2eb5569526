-- ===== src/Pg/Encode.antt =====
-- internal/pg/handler.go: `encodeValue` and what it calls. An encoded value is a list of bytes where
-- it is binary, of characters where it is text.
pub mod Numbers
use spoofdb.Base.{
  ℕ, zero, suc, ◌+◌, ◌-◌, ◌*◌, ◌/◌, ◌%◌, ◌^◌, Bool, true, false, not, ◌&&◌, ◌||◌, List, [], ◌∷◌,
  ◌++◌, Option, none, some, ltb, leb, ◌==◌, if◌then◌else◌,
}
use spoofdb.Base.Int.{ℤ, pos, negsuc, neg, ◌-ℤ◌, clamp64}
use spoofdb.Text.{Str, codes, one_of, trim_space}
use spoofdb.Decimal.{parse_int64}
use spoofdb.Value.{
  Value, null, bool, int, int8, int16, int32, int64, uint, uint8, uint16, uint32, uint64, float32,
  float64, text, bytes, time, big_int, other,
}
use spoofdb.Value.Print.{Formats, Layout, micros, seconds, days, sprint}

-- the low `w` bits of an integer: the conversion to an unsigned type
unfoldable pub low_bits : ℕ → ℤ → ℕ
low_bits w (pos n) = n % 2 ^ w
low_bits w (negsuc n) = 2 ^ w - 1 - n % 2 ^ w

-- `int64(x)` of a `uint64`
unfoldable pub int64_of_uint64 : ℕ → ℤ
int64_of_uint64 n = if ltb n (2 ^ 63) then pos n else negsuc (2 ^ 64 - 1 - n)

-- `binary.BigEndian.PutUint16`, `PutUint32`, `PutUint64`: `k` bytes
unfoldable pub put_be : ℕ → ℕ → Str
put_be zero n = []
put_be (suc k) n = (n / 256 ^ k) % 256 ∷ put_be k n

-- nanoseconds of 2000-01-01 and of the zero `time.Time`
abbrev pub pg_epoch : ℤ
pg_epoch = pos 946684800000000000

abbrev zero_time : ℤ
zero_time = negsuc 62135596799999999999

-- `t.Sub(u)`: the difference, or the nearest `int64`
unfoldable pub sub_clamped : ℤ → ℤ → ℤ
sub_clamped a b = clamp64 (a -ℤ b)

-- `d / 1000`, towards 0
unfoldable pub microseconds : ℤ → ℤ
microseconds (pos n) = pos (n / 1000)
microseconds (negsuc n) = neg ((n + 1) / 1000)

module _ ⦃fm : Formats⦄ where
  -- `toInt`
  unfoldable pub to_int : Value → ℤ
  unfolding int64_of_uint64
  to_int (int64 z) = z
  to_int (int32 z) = z
  to_int (int16 z) = z
  to_int (int z) = z
  to_int (uint64 n) = int64_of_uint64 n
  to_int (uint32 n) = pos n
  to_int (float64 f) = fm.int64_of_float64 f
  to_int (bool b) = if b then pos 1 else pos 0
  to_int v = parse_int64 (trim_space (sprint v))

  -- `toFloat`
  unfoldable pub to_float : Value → ℕ
  to_float (float64 f) = f
  to_float (float32 f) = fm.float64_of_float32 f
  to_float (int64 z) = fm.float64_of_int z
  to_float (int32 z) = fm.float64_of_int z
  to_float v = fm.parse_float (trim_space (sprint v))

  -- `toBool`
  unfoldable pub to_bool : Value → Bool
  unfolding to_int
  to_bool (bool b) = b
  to_bool (text s) = one_of s (codes "true" ∷ codes "t" ∷ codes "1" ∷ [])
  to_bool v = elim (to_int v) [ pos n ↦ not (n == 0) | negsuc n ↦ true ]

  abbrev first_time : Option ℤ → Option ℤ → Option ℤ → ℤ
  first_time (some t) b c = t
  first_time none (some t) c = t
  first_time none none (some t) = t
  first_time none none none = zero_time

  -- `toTime`
  unfoldable pub to_time : Value → ℤ
  to_time (time t) = t
  to_time (text s) =
      first_time (fm.parse_time micros s) (fm.parse_time seconds s) (fm.parse_time days s)
  to_time v = zero_time

  -- `encodeText` of a value that is not nil
  unfoldable pub encode_text : Value → Str
  encode_text (bool b) = if b then codes "t" else codes "f"
  encode_text (time t) = fm.format_time micros t
  encode_text (text s) = s
  encode_text (bytes s) = s
  encode_text v = sprint v

  -- `encodeBinary`
  unfoldable pub encode_binary : Value → ℕ → Str
  unfolding to_int to_float to_bool to_time encode_text low_bits put_be sub_clamped microseconds
  encode_binary v oid =
      if oid == 16
      then (if to_bool v then 1 ∷ [] else 0 ∷ [])
      else if oid == 21
      then put_be 2 (low_bits 16 (to_int v))
      else if oid == 23
      then put_be 4 (low_bits 32 (to_int v))
      else if oid == 20
      then put_be 8 (low_bits 64 (to_int v))
      else if oid == 700
      then put_be 4 (fm.float32_of_float64 (to_float v))
      else if oid == 701
      then put_be 8 (to_float v)
      else if oid == 1114
      then put_be 8 (low_bits 64 (microseconds (sub_clamped (to_time v) pg_epoch)))
      else if oid == 1082
      then put_be 4 (low_bits 32 (fm.floor_days (sub_clamped (to_time v) pg_epoch)))
      else encode_text v

  -- `encodeValue`; SQL NULL is `none`
  unfoldable pub encode_value : Value → ℕ → ℕ → Option Str
  unfolding encode_binary
  encode_value null oid format = none
  encode_value v oid format = some (if format == 1 then encode_binary v oid else encode_text v)
