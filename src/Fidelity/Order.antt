-- ===== src/Fidelity/Order.antt =====
-- The order in which a report is shown.
use mathlib.Core.List.{Perm}
use spoofdb.Base.{◌≡◌, Bool, true, false, not, ◌&&◌, ◌||◌, List, [], ◌∷◌, arith}
use spoofdb.Text.{same}
use spoofdb.Text.Laws.{same_iff}
use spoofdb.Sort.Laws.{IsSorted, sort-IsSorted, sort-perm, le_str_total}
use spoofdb.Sort.{le_str}
use spoofdb.Fidelity.{Note, Report, less_note, le_note, entries, sorted}

le_note_total : (a b : Note) → le_note a b ≡ false → le_note b a ≡ true
unfolding less_note
le_note_total a b h = ground (
  arith,
  same_iff a.column b.column,
  same_iff b.column a.column,
  le_str_total a.column b.column,
  le_str_total b.column a.column,
  le_str_total a.reason b.reason,
  le_str_total b.reason a.reason,
)

-- in the order of the columns, and of the reasons in a column
abbrev pub by_column : Note → Note → Bool
by_column a b =
    le_str a.column b.column && (not (same a.column b.column) || le_str a.reason b.reason)

le_note-by_column : (a b : Note) → le_note a b ≡ true → by_column a b ≡ true
unfolding less_note
le_note-by_column a b h = ground (
  arith,
  same_iff a.column b.column,
  same_iff b.column a.column,
  le_str_total a.column b.column,
  le_str_total b.column a.column,
)

IsSorted-by_column : (l : List Note) → IsSorted le_note l → IsSorted by_column l
IsSorted-by_column [] h = tt
IsSorted-by_column (a ∷ []) h = tt
IsSorted-by_column (a ∷ b ∷ l) h = (le_note-by_column a b h.0, IsSorted-by_column (b ∷ l) h.1)

-- The notes are shown in the order of their columns, those of one column in the order of their
-- reasons, and each of them once.
pub sorted_notes : (r : Report) → IsSorted by_column (sorted r) × Perm (sorted r) (entries r)
unfolding sorted
sorted_notes r = (
  IsSorted-by_column (sorted r) (sort-IsSorted le_note le_note_total (entries r)),
  sort-perm le_note (entries r),
)
