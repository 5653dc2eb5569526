-- ===== src/Clickhouse/Report/Reasons.antt =====
-- What is approximate about the types and the values of a ClickHouse reply.
use mathlib.Core.Path.{subst}
use spoofdb.Base.{
  ℕ, ◌≡◌, ◌≢◌, All-append, refl, sym, Bool, true, not, ◌&&◌, List, [], ◌∷◌, ◌++◌, Option, none,
  some, arith, get_elem?, if◌then◌else◌, All, Bool-cases, inl, inr, ◌==◌,
}
use spoofdb.Text.{Str, codes, one_of, same}
use spoofdb.Text.Laws.{same_iff}
use spoofdb.Value.{Value}
use spoofdb.Value.Print.{Formats}
use spoofdb.Fidelity.{exceeds_int64}
use spoofdb.Fidelity.Count.{NoNul}
use spoofdb.Clickhouse.Report.{is_null, outside_date_time_range, is_wide_int, is_timestamp}

abbrev unsigned_types : List Str
unsigned_types =
    codes "UTINYINT"
    ∷ codes "USMALLINT"
    ∷ codes "UINTEGER"
    ∷ codes "UBIGINT"
    ∷ codes "UHUGEINT"
    ∷ []

abbrev text_types : List Str
text_types =
    codes "DATE" ∷ codes "TIME" ∷ codes "INTERVAL" ∷ codes "UUID" ∷ codes "BLOB" ∷ codes "BIT" ∷ []

-- what is approximate about a type
abbrev pub type_reasons : Str → List Str
type_reasons base =
    if one_of base (codes "DECIMAL" ∷ codes "NUMERIC" ∷ [])
    then codes "DECIMAL shown as Float64; precision may be lost" ∷ []
    else if one_of base (codes "BOOLEAN" ∷ codes "BOOL" ∷ [])
    then codes "BOOLEAN shown as UInt8" ∷ []
    else if one_of base unsigned_types
    then codes "unsigned integer shown as signed" ∷ []
    else if one_of base text_types
    then (base ++ codes " shown as text") ∷ []
    else []

-- a test for NUL
abbrev has_none : Str → Bool
has_none [] = true
has_none (c ∷ s) = not (c == 0) && has_none s

has_none-NoNul : (s : Str) → has_none s ≡ true → NoNul s
has_none-NoNul [] h = tt
has_none-NoNul (c ∷ s) h = (ground arith, has_none-NoNul s (ground arith))

one_of-All : (P : Str → Type 0) (s : Str) (ws : List Str) → All P ws → one_of s ws ≡ true → P s
unfolding one_of
one_of-All P s [] a h = cc
one_of-All P s (w ∷ ws) a h = elim (Bool-cases (same s w)) [
  | inl y ↦ subst P (sym ((same_iff s w).0 y)) a.0
  | inr n ↦ one_of-All P s ws a.1 (ground arith)
]

text_types-NoNul : All NoNul text_types
text_types-NoNul = (
  has_none-NoNul (codes "DATE") refl,
  (
    has_none-NoNul (codes "TIME") refl,
    (
      has_none-NoNul (codes "INTERVAL") refl,
      (
        has_none-NoNul (codes "UUID") refl,
        (has_none-NoNul (codes "BLOB") refl, (has_none-NoNul (codes "BIT") refl, tt)),
      ),
    ),
  ),
)

pub type_reasons-NoNul : (base : Str) → All NoNul (type_reasons base)
type_reasons-NoNul base = elim (Bool-cases (one_of base (codes "DECIMAL" ∷ codes "NUMERIC" ∷ []))) [
  | inl y ↦
      rw (y, if◌then◌else◌)
        (has_none-NoNul (codes "DECIMAL shown as Float64; precision may be lost") refl, tt)
  | inr n ↦ elim (Bool-cases (one_of base (codes "BOOLEAN" ∷ codes "BOOL" ∷ []))) [
    | inl y ↦ rw (n, y, if◌then◌else◌) (has_none-NoNul (codes "BOOLEAN shown as UInt8") refl, tt)
    | inr m ↦ elim (Bool-cases (one_of base unsigned_types)) [
      | inl y ↦
          rw (n, m, y, if◌then◌else◌)
            (has_none-NoNul (codes "unsigned integer shown as signed") refl, tt)
      | inr k ↦ elim (Bool-cases (one_of base text_types)) [
        | inl y ↦
            rw (n, m, k, y, if◌then◌else◌)
              (
                All-append (λ c. c ≢ 0) base (codes " shown as text")
                    (one_of-All NoNul base text_types text_types-NoNul y)
                    (has_none-NoNul (codes " shown as text") refl),
                tt,
              )
        | inr j ↦ rw (n, m, k, j, if◌then◌else◌) tt
      ]
    ]
  ]
]

module _ ⦃fm : Formats⦄ where
  -- what is approximate about a value, in a column of a type
  abbrev pub value_reasons : Str → Option Value → List Str
  value_reasons base none = []
  value_reasons base (some v) =
      if is_null v
      then codes "NULL rendered as zero value (column is not Nullable)" ∷ []
      else if is_wide_int base && exceeds_int64 v
      then codes "value exceeds int64 and is truncated" ∷ []
      else if is_timestamp base && outside_date_time_range v
      then codes "timestamp outside DateTime range (1970-2106)" ∷ []
      else []

  -- the same about a column of the result, for each row
  abbrev pub column_reasons : Str → ℕ → List (List Value) → List Str
  column_reasons base ci [] = []
  column_reasons base ci (row ∷ rows) =
      value_reasons base (get_elem? row ci) ++ column_reasons base ci rows

  value_reasons-NoNul : (base : Str) (o : Option Value) → All NoNul (value_reasons base o)
  value_reasons-NoNul base none = tt
  value_reasons-NoNul base (some v) = elim (Bool-cases (is_null v)) [
    | inl y ↦
        rw (y, if◌then◌else◌)
          (has_none-NoNul (codes "NULL rendered as zero value (column is not Nullable)") refl, tt)
    | inr n ↦ elim (Bool-cases (is_wide_int base && exceeds_int64 v)) [
      | inl y ↦
          rw (n, y, if◌then◌else◌)
            (has_none-NoNul (codes "value exceeds int64 and is truncated") refl, tt)
      | inr m ↦ elim (Bool-cases (is_timestamp base && outside_date_time_range v)) [
        | inl y ↦
            rw (n, m, y, if◌then◌else◌)
              (has_none-NoNul (codes "timestamp outside DateTime range (1970-2106)") refl, tt)
        | inr k ↦ rw (n, m, k, if◌then◌else◌) tt
      ]
    ]
  ]

  pub column_reasons-NoNul :
      (base : Str) (ci : ℕ) (rows : List (List Value)) → All NoNul (column_reasons base ci rows)
  column_reasons-NoNul base ci [] = tt
  column_reasons-NoNul base ci (row ∷ rows) =
      All-append NoNul (value_reasons base (get_elem? row ci)) (column_reasons base ci rows)
        (value_reasons-NoNul base (get_elem? row ci)) (column_reasons-NoNul base ci rows)
