-- ===== src/Fidelity/Blank.antt =====
-- internal/fidelity/fidelity.go: when a report that notes are added to stays empty.
use spoofdb.Base.{◌≡◌, refl, Bool, true, false, ◌&&◌, [], ◌∷◌, none, some, is_some, arith}
use spoofdb.Text.{Str}
use spoofdb.Fidelity.{Report, add, bump, is_empty}

pub is_some-add : (c m : Str) (r : Report) → is_some r ≡ true → is_some (add c m r) ≡ true
unfolding add
is_some-add c m none h = h
is_some-add c m (some notes) h = refl

is_empty-add : (c m : Str) (r : Report) → is_some r ≡ true → is_empty (add c m r) ≡ false
unfolding add bump is_empty
is_empty-add c m none h = cc
is_empty-add c m (some []) h = refl
is_empty-add c m (some ((k, n) ∷ notes)) h = ground arith

-- `s` is what becomes of the report `r` by a step that adds a note unless `clean`
abbrev pub Step : Bool → Report → Report → Type 0
Step clean r s = (is_some s ≡ true) × (is_empty s ≡ (is_empty r && clean))

pub add-Step : (c m : Str) (r : Report) → is_some r ≡ true → Step false r (add c m r)
add-Step c m r h = (is_some-add c m r h, ground (arith, is_empty-add c m r h))

pub skip-Step : (r : Report) → is_some r ≡ true → Step true r r
skip-Step r h = (h, ground arith)

pub then-Step : (p q : Bool) (r s t : Report) → Step p r s → Step q s t → Step (p && q) r t
then-Step p q r s t (a, e) (b, f) = (b, ground arith)
