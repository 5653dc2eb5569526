-- ===== src/Fidelity.antt =====
-- internal/fidelity/fidelity.go. A `*Report` is `none` where it is nil; its map is the list of its
-- entries, in the order in which they were made, which nothing of what follows depends on.
pub mod Blank
pub mod Count
pub mod Order
use spoofdb.Base.{
  ℕ, ◌+◌, ◌-◌, ◌^◌, Bool, true, false, not, ◌&&◌, List, [], ◌∷◌, ◌++◌, map, Option, none, some, ltb,
  leb, if◌then◌else◌,
}
use spoofdb.Base.Int.{ℤ}
use spoofdb.Text.{Str, codes, same, trim_space, join}
use spoofdb.Decimal.{print_nat, read_big, is_int64}
use spoofdb.Sort.{le_str, sort}
use spoofdb.Value.{Value, uint64, big_int}
use spoofdb.Value.Print.{Formats, sprint, quote}

module _ ⦃fm : Formats⦄ where
  abbrev too_wide : Option ℤ → Bool
  too_wide none = false
  too_wide (some z) = not (is_int64 z)

  -- `ExceedsInt64`
  unfoldable pub exceeds_int64 : Value → Bool
  exceeds_int64 (uint64 n) = ltb (2 ^ 63 - 1) n
  exceeds_int64 (big_int z) = not (is_int64 z)
  exceeds_int64 v = too_wide (read_big (trim_space (sprint v)))

-- `note`
pub record Note : Type 0 where
  pub column : Str
  pub reason : Str
  pub count : ℕ

abbrev pub Notes : Type 0
Notes = List (Str × Note)

abbrev pub Report : Type 0
Report = Option Notes

-- `New`
abbrev pub new : Report
new = some []

-- column + "\x00" + reason
unfoldable pub note_key : Str → Str → Str
note_key column reason = column ++ 0 ∷ reason

-- `n := r.notes[key]`, made if it is nil, and `n.count++`
unfoldable pub bump : Str → Str → Str → Notes → Notes
unfolding same
bump key column reason [] = (key, record { column = column; reason = reason; count = 1 }) ∷ []
bump key column reason ((k, n) ∷ notes) =
    if same k key
    then (k, record n { count = n.count + 1 }) ∷ notes
    else (k, n) ∷ bump key column reason notes

-- `Report.Add`
unfoldable pub add : Str → Str → Report → Report
unfolding bump note_key
add column reason none = none
add column reason (some notes) = some (bump (note_key column reason) column reason notes)

-- `Report.Empty`
unfoldable pub is_empty : Report → Bool
is_empty none = true
is_empty (some []) = true
is_empty (some (n ∷ notes)) = false

-- the `less` of `sort.Slice`
unfoldable pub less_note : Note → Note → Bool
unfolding same le_str
less_note a b =
    if not (same a.column b.column)
    then not (le_str b.column a.column)
    else not (le_str b.reason a.reason)

abbrev pub le_note : Note → Note → Bool
le_note a b = not (less_note b a)

abbrev pub entries : Report → List Note
entries none = []
entries (some notes) = map (λ kn. kn.1) notes

-- `Report.sorted`
unfoldable pub sorted : Report → List Note
unfolding less_note sort
sorted r = sort le_note (entries r)

module _ ⦃fm : Formats⦄ where
  -- one line of `Warnings`
  unfoldable pub warning : Note → Str
  unfolding quote
  warning n =
      codes "column "
      ++ (quote n.column
          ++ (codes ": "
              ++ (n.reason
                  ++ (if ltb 1 n.count
                      then codes " (x" ++ (print_nat n.count ++ codes ")")
                      else []))))

  -- `Report.Warnings`
  unfoldable pub warnings : Report → List Str
  unfolding is_empty sorted warning
  warnings r = if is_empty r then [] else map warning (sorted r)

  -- `Report.Summary`
  unfoldable pub summary : Report → Str
  unfolding warnings
  summary r =
      if is_empty r
      then []
      else codes "served with approximations: " ++ join (codes "; ") (warnings r)
