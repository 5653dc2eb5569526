-- ===== src/Clickhouse/Report/Wide.antt =====
-- What a result with an empty report holds.
use spoofdb.Base.{
  ℕ, ◌+◌, ◌≡◌, ◌∙◌, ap, Bool, true, false, not, ◌&&◌, List, [], ◌∷◌, Option, none, some, arith,
  get_elem?, Bool-cases, inl, inr, All,
}
use spoofdb.Base.Int.{ℤ}
use spoofdb.Text.{Str, codes, Unicode, one_of, same}
use spoofdb.Value.{Value, big_int, Column}
use spoofdb.Value.Print.{Formats}
use spoofdb.Fidelity.{Report, exceeds_int64}
use spoofdb.Pg.Statement.{base_type}
use spoofdb.Pg.Encode.Numbers.{to_int-big_int, clamp_fits}
use spoofdb.Text.Laws.{same_iff}
use spoofdb.Clickhouse.Columns.{col_int64, kind_of, cell, cell_int64}
use spoofdb.Clickhouse.Report.{is_null, outside_date_time_range, is_wide_int, is_timestamp}

module _ ⦃fm : Formats⦄ where
  -- a value that the column can hold: not NULL, an int64 in a wide column, a time in the range
  abbrev pub is_carried : Str → Option Value → Bool
  is_carried base none = true
  is_carried base (some v) =
      not (is_null v)
      && (not (is_wide_int base && exceeds_int64 v)
          && not (is_timestamp base && outside_date_time_range v))

  -- the column can hold its value of each row
  abbrev pub IsCarried : Str → ℕ → List (List Value) → Type 0
  IsCarried base ci = All (λ row. is_carried base (get_elem? row ci) ≡ true)

module _ ⦃u : Unicode⦄ ⦃fm : Formats⦄ where
  -- each column, from the `ci`th on, can hold its value of each row
  abbrev pub AreCarried : ℕ → List Column → List (List Value) → Type 0
  AreCarried ci [] rows = Unit
  AreCarried ci (c ∷ cs) rows = IsCarried (base_type c.type) ci rows × AreCarried (ci + 1) cs rows

third_wide :
    (base : Str)
    → is_wide_int base ≡ true
    → same base (codes "HUGEINT") ≡ false
    → same base (codes "UHUGEINT") ≡ false
    → same base (codes "UBIGINT") ≡ true
unfolding one_of
third_wide base h n m = ground arith

kind_of_wide : (base : Str) → is_wide_int base ≡ true → kind_of base ≡ col_int64
unfolding kind_of same
kind_of_wide base h = elim (Bool-cases (same base (codes "HUGEINT"))) [
  | inl y ↦ ap kind_of ((same_iff base (codes "HUGEINT")).0 y)
  | inr n ↦ elim (Bool-cases (same base (codes "UHUGEINT"))) [
    | inl y ↦ ap kind_of ((same_iff base (codes "UHUGEINT")).0 y)
    | inr m ↦ ap kind_of ((same_iff base (codes "UBIGINT")).0 (third_wide base h n m))
  ]
]

module _ ⦃fm : Formats⦄ where
  -- A HUGEINT of such a result, which the driver scans as a big integer, is sent as itself.
  pub cell-big_int :
      (base : Str) (z : ℤ)
      → is_wide_int base ≡ true
      → is_carried base (some (big_int z)) ≡ true
      → cell (kind_of base) (big_int z) ≡ cell_int64 z
  unfolding cell exceeds_int64
  cell-big_int base z w h =
      rw (kind_of_wide base w)
        (ap cell_int64 (to_int-big_int z ∙ clamp_fits z (unfold is_null in ground arith)))
