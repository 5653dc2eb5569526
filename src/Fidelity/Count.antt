-- ===== src/Fidelity/Count.antt =====
-- A report counts each approximation of each column apart.
use mathlib.Core.Path.{subst}
use spoofdb.Base.{
  zero, suc, ℕ, ◌+◌, ◌≡◌, ◌≢◌, refl, ◌∙◌, ap, Bool, ◌&&◌, List, [], ◌∷◌, ◌++◌, none, some, arith,
  if◌then◌else◌, All, Bool-cases, inl, inr,
}
use spoofdb.Text.{Str, same}
use spoofdb.Text.Laws.{same_iff}
use spoofdb.Fidelity.{Notes, Report, new, note_key, bump, add}

-- no NUL: so are the reasons that the program gives
abbrev pub NoNul : Str → Type 0
NoNul = All (λ c. c ≢ 0)

pub nul_inside : (c r : Str) → NoNul (c ++ 0 ∷ r) → ⊥
nul_inside [] r h = h.0 refl
nul_inside (x ∷ c) r h = nul_inside c r h.1

-- the key says which column and which reason it was made of
pub note_key_injective :
    (c d r s : Str) → NoNul r → NoNul s → note_key c r ≡ note_key d s → (c ≡ d) × (r ≡ s)
unfolding note_key
note_key_injective [] [] r s hr hs e = ground arith
note_key_injective [] (y ∷ d) r s hr hs e = absurd (nul_inside d s (subst NoNul (cc) hr))
note_key_injective (x ∷ c) [] r s hr hs e = absurd (nul_inside c r (subst NoNul (cc) hs))
note_key_injective (x ∷ c) (y ∷ d) r s hr hs e = ground (arith, note_key_injective c d r s hr hs)

-- the program's keys
abbrev Keyed : Notes → Type 0
Keyed = All (λ kn. (kn.0 ≡ note_key kn.1.column kn.1.reason) × NoNul kn.1.reason)

-- is this the pair?
abbrev pub is_pair : Str → Str → Str → Str → Bool
is_pair column reason c r = same column c && same reason r

-- the counts of the notes for one column and one reason
abbrev pub counts_for : Str → Str → Notes → List ℕ
counts_for c r [] = []
counts_for c r ((k, n) ∷ notes) =
    if is_pair n.column n.reason c r then n.count ∷ counts_for c r notes else counts_for c r notes

abbrev pub counts_in : Str → Str → Report → List ℕ
counts_in c r none = []
counts_in c r (some notes) = counts_for c r notes

-- how often a pair was added
abbrev pub occurrences : Str → Str → List (Str × Str) → ℕ
occurrences c r [] = 0
occurrences c r ((column, reason) ∷ added) =
    (if is_pair column reason c r then 1 else 0) + occurrences c r added

-- the report behind a sequence of `Add`
unfoldable pub add_all : List (Str × Str) → Report → Report
add_all [] report = report
add_all ((column, reason) ∷ added) report = add_all added (add column reason report)

abbrev increment : List ℕ → List ℕ
increment [] = 1 ∷ []
increment (m ∷ ms) = (m + 1) ∷ ms

bump-Keyed :
    (column reason : Str) (notes : Notes)
    → NoNul reason
    → Keyed notes
    → Keyed (bump (note_key column reason) column reason notes)
unfolding bump
bump-Keyed column reason [] h k = ((refl, h), tt)
bump-Keyed column reason ((j, n) ∷ notes) h (kn, ks) =
    elim (Bool-cases (same j (note_key column reason))) [
      | inl y ↦ rw y (kn, ks)
      | inr z ↦ rw z (kn, bump-Keyed column reason notes h ks)
    ]

counts_for-bump :
    (c r column reason : Str) (notes : Notes)
    → NoNul reason
    → Keyed notes
    → counts_for c r (bump (note_key column reason) column reason notes) ≡ (
        if is_pair column reason c r
        then increment (counts_for c r notes)
        else counts_for c r notes)
unfolding bump
counts_for-bump c r column reason [] h k = ground arith
counts_for-bump c r column reason ((j, n) ∷ notes) h (kn, ks) = ground (
  arith,
  same_iff j (note_key column reason),
  same_iff n.column c,
  same_iff n.reason r,
  same_iff column c,
  same_iff reason r,
  kn.0,
  note_key_injective n.column column n.reason reason kn.1 h,
  counts_for-bump c r column reason notes h ks,
)

-- nothing, or one note with this count
abbrev pub tally : ℕ → List ℕ
tally zero = []
tally (suc n) = suc n ∷ []

increment-tally : (n : ℕ) → increment (tally n) ≡ tally (suc n)
increment-tally zero = refl
increment-tally (suc n) = ground arith

abbrev pub NoNuls : List (Str × Str) → Type 0
NoNuls = All (λ a. NoNul a.1)

tally-add_all :
    (c r : Str) (added : List (Str × Str)) (notes : Notes) (n : ℕ)
    → NoNuls added
    → Keyed notes
    → counts_for c r notes ≡ tally n
    → counts_in c r (add_all added (some notes)) ≡ tally (n + occurrences c r added)
unfolding add_all add
tally-add_all c r [] notes n h k e = rw e (ap tally (omega arith))
tally-add_all c r ((column, reason) ∷ added) notes n h k e =
    elim (Bool-cases (is_pair column reason c r)) [
      | inl y ↦ rw y (
          tally-add_all c r added _ (suc n) h.1 (bump-Keyed column reason notes h.0 k) (
            counts_for-bump c r column reason notes h.0 k
            ∙ rw y (ap increment e ∙ increment-tally n))
          ∙ ap tally (omega arith))
      | inr z ↦ rw z (
          tally-add_all c r added _ n h.1 (bump-Keyed column reason notes h.0 k)
            (counts_for-bump c r column reason notes h.0 k ∙ rw z e)
          ∙ ap tally (omega arith))
    ]

-- After any sequence of additions whose reasons hold no NUL, a report has one note for each pair of
-- a column and a reason that was added, with the number of its additions, and none for any other
-- pair, whatever the columns are called.
pub counts_in-add_all :
    (c r : Str) (added : List (Str × Str))
    → NoNuls added
    → counts_in c r (add_all added new) ≡ tally (occurrences c r added)
counts_in-add_all c r added h = tally-add_all c r added [] 0 h tt refl ∙ ap tally (omega arith)
