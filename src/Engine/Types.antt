-- ===== src/Engine/Types.antt =====
-- internal/engine/source_clickhouse.go: `chToDuckType`, `unwrapType` and `normalizeForDuck`.
pub mod Wrapped
use spoofdb.Base.{
  ℕ, zero, suc, Bool, true, false, List, [], ◌∷◌, ◌++◌, Option, none, some, ◌==◌, if◌then◌else◌,
  length,
}
use spoofdb.Text.{Str, codes, same, one_of, until, trim_space}
use spoofdb.Value.{Value, bytes, text, big_int, other}
use spoofdb.Value.Print.{Formats, sprint}
use spoofdb.Engine.Errors.{strip_prefix}

abbrev pub cons_some : ℕ → Option Str → Option Str
cons_some c none = none
cons_some c (some s) = some (c ∷ s)

-- the text in front of a last ')'
unfoldable pub drop_close : Str → Option Str
drop_close [] = none
drop_close (c ∷ []) = if c == b')' then some [] else none
drop_close (c ∷ d ∷ s) = cons_some c (drop_close (d ∷ s))

abbrev pub close_of : Option Str → Option Str
close_of none = none
close_of (some rest) = drop_close rest

-- `unwrapType`
unfoldable pub unwrap_type : Str → Str → Option Str
unfolding drop_close strip_prefix
unwrap_type s wrapper = close_of (strip_prefix s (wrapper ++ b'(' ∷ []))

-- one round of the loop of `chToDuckType`: the inner type, if there is a wrapper
abbrev pub first_some : Option Str → Option Str → Option Str
first_some none b = b
first_some (some a) b = some a

unfoldable pub unwrap : Str → Option Str
unfolding unwrap_type
unwrap s = first_some (unwrap_type s (codes "Nullable")) (unwrap_type s (codes "LowCardinality"))

-- the loop; each round shortens the text, so its length is fuel enough
unfoldable pub unwrap_all : ℕ → Str → Str
unfolding unwrap
unwrap_all zero s = s
unwrap_all (suc fuel) s = elim (unwrap s) [ none ↦ s | some inner ↦ unwrap_all fuel inner ]

-- the `switch` on the name
unfoldable pub duck_name : Str → Str
unfolding one_of
duck_name name =
    if same name (codes "UInt8")
    then codes "UTINYINT"
    else if same name (codes "UInt16")
    then codes "USMALLINT"
    else if same name (codes "UInt32")
    then codes "UINTEGER"
    else if same name (codes "UInt64")
    then codes "UBIGINT"
    else if same name (codes "Int8")
    then codes "TINYINT"
    else if same name (codes "Int16")
    then codes "SMALLINT"
    else if same name (codes "Int32")
    then codes "INTEGER"
    else if same name (codes "Int64")
    then codes "BIGINT"
    else if same name (codes "Float32")
    then codes "FLOAT"
    else if same name (codes "Float64")
    then codes "DOUBLE"
    else if one_of name (codes "Bool" ∷ codes "Boolean" ∷ [])
    then codes "BOOLEAN"
    else if one_of name (codes "Date" ∷ codes "Date32" ∷ [])
    then codes "DATE"
    else if one_of name (codes "DateTime" ∷ codes "DateTime64" ∷ [])
    then codes "TIMESTAMP"
    else codes "VARCHAR"

-- `chToDuckType`
unfoldable pub ch_to_duck_type : Str → Str
unfolding unwrap_all duck_name
ch_to_duck_type t =
    duck_name (until (λ c. c == b'(') (unwrap_all (length (trim_space t)) (trim_space t)))

-- `normalizeForDuck`
module _ ⦃fm : Formats⦄ where
  unfoldable pub normalize_for_duck : Value → Value
  normalize_for_duck (bytes s) = text s
  normalize_for_duck (big_int z) = text (sprint (big_int z))
  normalize_for_duck (other s) = text (sprint (other s))
  normalize_for_duck v = v
