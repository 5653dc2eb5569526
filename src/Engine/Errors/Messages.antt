-- ===== src/Engine/Errors/Messages.antt =====
-- The errors that DuckDB gives for a relation that is not there, through `classifyErr` and
-- `missingRelationName`.
use mathlib.Core.Path.{subst}
use spoofdb.Base.{
  ℕ, ◌≡◌, ◌≢◌, refl, ◌∙◌, true, false, [], ◌∷◌, ◌++◌, some, arith, All, append_assoc,
}
use spoofdb.Text.{Str, codes, Unicode, to_lower, contains, any_of}
use spoofdb.Text.Laws.{contains_infix, trim_none, until-All, to_lower-append}
use spoofdb.Engine.Errors.{
  missing_relation, classify_err, ends_name, skip_quote, behind_name, match_name, match_here,
  find_name, missing_relation_name,
}

-- a name that the regular expression can read: one or more characters, no blank and no quote
abbrev pub IsName : Str → Type 0
IsName x = (x ≢ []) × All (λ c. ends_name c ≡ false) x

-- "Catalog Error: Table with name X does not exist" and what DuckDB writes behind it
abbrev pub not_found : Str → Str → Str
not_found x tail =
    codes "Catalog Error: Table "
    ++ (codes "with name " ++ (x ++ (codes " does not exist" ++ tail)))

behind_name-append :
    (x : Str) (c : ℕ) (rest : Str)
    → All (λ d. ends_name d ≡ false) x
    → ends_name c ≡ true
    → behind_name (x ++ c ∷ rest) ≡ c ∷ rest
unfolding behind_name
behind_name-append [] c rest h e = rw e
behind_name-append (d ∷ x) c rest h e = rw (h.0) (behind_name-append x c rest h.1 e)

match_name-append :
    (x tail : Str) → IsName x → match_name (x ++ (codes " does not exist" ++ tail)) ≡ some x
unfolding match_name
match_name-append [] tail (ne, h) = absurd (ne refl)
match_name-append (c ∷ x) tail (ne, h) = rw (
  behind_name-append (c ∷ x) b' ' (codes "does not exist" ++ tail) h refl,
  until-All ends_name (c ∷ x) b' ' (codes "does not exist" ++ tail) h refl,
  h.0,
)

skip_quote_name : (x rest : Str) → IsName x → skip_quote (x ++ rest) ≡ x ++ rest
skip_quote_name [] rest (ne, h) = absurd (ne refl)
skip_quote_name (c ∷ x) rest (ne, h) = ground (arith, h.0)

match_here-append :
    (x tail : Str)
    → IsName x
    → match_here (codes "with name " ++ (x ++ (codes " does not exist" ++ tail))) ≡ some x
unfolding match_here
match_here-append x tail h = rw (skip_quote_name x _ h) (match_name-append x tail h)

-- no match starts at another letter
find_name_skip : (pre s : Str) → All (λ c. c ≢ b'w') pre → find_name (pre ++ s) ≡ find_name s
unfolding find_name match_here
find_name_skip [] s h = refl
find_name_skip (c ∷ pre) s h = ground (arith, find_name_skip pre s h.1, h.0)

find_name-here : (s x : Str) → match_here s ≡ some x → find_name s ≡ some x
unfolding find_name
find_name-here [] x h = unfold match_here in h
find_name-here (c ∷ s) x h = rw (h, find_name)

no_quote : (x : Str) → All (λ c. ends_name c ≡ false) x → All (λ c. any_of (codes "\"") c ≡ false) x
unfolding any_of
no_quote [] h = tt
no_quote (c ∷ x) h = (ground (arith, h.0), no_quote x h.1)

name_found :
    (m x : Str)
    → All (λ c. ends_name c ≡ false) x
    → find_name m ≡ some x
    → missing_relation_name (some m) ≡ x
unfolding missing_relation_name
name_found m x h e =
    rw (e, missing_relation_name) (trim_none (any_of (codes "\"")) x (no_quote x h))

-- The name that is logged for a relation that is not there is the name in DuckDB's error, whatever
-- the hint behind it says.
pub missing_relation_name-not_found :
    (x tail : Str) → IsName x → missing_relation_name (some (not_found x tail)) ≡ x
missing_relation_name-not_found x tail h = name_found (not_found x tail) x h.1 (
    find_name_skip (codes "Catalog Error: Table ") _ (omega arith)
    ∙ find_name-here _ x (match_here-append x tail h))

module _ ⦃u : Unicode⦄ where
  lower_infix : (a s b : Str) → contains (to_lower (a ++ (s ++ b))) (to_lower s) ≡ true
  lower_infix a s b =
      rw (to_lower-append a (s ++ b), to_lower-append s b)
        (contains_infix (to_lower a) (to_lower s) (to_lower b))

  not_found_table :
      (x tail : Str) → contains (to_lower (not_found x tail)) (codes "table with name") ≡ true
  unfolding to_lower
  not_found_table x tail =
      lower_infix (codes "Catalog Error: ") (codes "Table with name")
        (b' ' ∷ (x ++ (codes " does not exist" ++ tail)))

  not_found_gone :
      (x tail : Str) → contains (to_lower (not_found x tail)) (codes "does not exist") ≡ true
  unfolding to_lower
  not_found_gone x tail =
      subst
        (λ z.
          contains (to_lower (codes "Catalog Error: Table with name " ++ z))
            (codes "does not exist")
          ≡ true)
        (append_assoc x (b' ' ∷ []) (codes "does not exist" ++ tail))
        (lower_infix (codes "Catalog Error: Table with name " ++ (x ++ b' ' ∷ []))
          (codes "does not exist") tail)

  -- Such an error counts as a missing relation, whatever the relation is called.
  pub classify_err-not_found :
      (x tail : Str) → classify_err (some (not_found x tail)) ≡ missing_relation
  unfolding classify_err
  classify_err-not_found x tail = ground (arith, not_found_table x tail, not_found_gone x tail)
