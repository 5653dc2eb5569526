-- ===== src/Text/Laws.antt =====
-- Laws of the string functions.
use mathlib.Core.List.{map-append}
use spoofdb.Base.{ℕ, ◌≡◌, ◌↔◌, refl, ap, Bool, true, false, List, [], ◌∷◌, ◌++◌, arith, All}
use spoofdb.Text.{
  Str, Unicode, same, one_of, lower, to_lower, has_prefix, contains, drop_while, until, trim_end,
  trim,
}

pub same_iff : (a b : Str) → (same a b ≡ true) ↔ (a ≡ b)
unfolding same
same_iff (x ∷ a) (y ∷ b) = ground (arith, same_iff a b)
same_iff _ _ = ground arith

pub same_refl : (a : Str) → same a a ≡ true
same_refl a = (same_iff a a).1 refl

pub one_of-cons : (s w : Str) (ws : List Str) → one_of s ws ≡ true → one_of s (w ∷ ws) ≡ true
unfolding one_of
one_of-cons s w ws h = ground arith

pub one_of_head : (s : Str) (ws : List Str) → one_of s (s ∷ ws) ≡ true
unfolding one_of
one_of_head s ws = rw same_refl

pub has_prefix-append : (s t : Str) → has_prefix (s ++ t) s ≡ true
unfolding has_prefix
has_prefix-append [] [] = refl
has_prefix-append [] (x ∷ t) = refl
has_prefix-append (c ∷ s) t = ground (arith, has_prefix-append s t)

contains_of_has_prefix : (s sub : Str) → has_prefix s sub ≡ true → contains s sub ≡ true
unfolding contains
contains_of_has_prefix [] sub h = h
contains_of_has_prefix (c ∷ s) sub h = rw h

-- A text contains each of its parts.
pub contains_infix : (a sub b : Str) → contains (a ++ (sub ++ b)) sub ≡ true
unfolding contains
contains_infix [] sub b = contains_of_has_prefix (sub ++ b) sub (has_prefix-append sub b)
contains_infix (c ∷ a) sub b = ground (arith, contains_infix a sub b)

pub drop_while_none : (p : ℕ → Bool) (s : Str) → All (λ c. p c ≡ false) s → drop_while p s ≡ s
unfolding drop_while
drop_while_none p [] h = refl
drop_while_none p (c ∷ s) h = rw (h.0)

trim_end_none : (p : ℕ → Bool) (s : Str) → All (λ c. p c ≡ false) s → trim_end p s ≡ s
unfolding trim_end
trim_end_none p [] h = refl
trim_end_none p (c ∷ []) h = ground (arith, h.0)
trim_end_none p (c ∷ d ∷ s) h = rw (trim_end_none p (d ∷ s) h.1, trim_end)

-- Nothing is trimmed from a text that holds no character of the cut set.
pub trim_none : (p : ℕ → Bool) (s : Str) → All (λ c. p c ≡ false) s → trim p s ≡ s
unfolding trim
trim_none p s h = rw (drop_while_none p s h) (trim_end_none p s h)

pub until-All :
    (p : ℕ → Bool) (s : Str) (c : ℕ) (rest : Str)
    → All (λ d. p d ≡ false) s
    → p c ≡ true
    → until p (s ++ c ∷ rest) ≡ s
unfolding until
until-All p [] c rest h e = rw e
until-All p (d ∷ s) c rest h e = rw (h.0) (ap (◌∷◌ d) (until-All p s c rest h.1 e))

pub to_lower-append : ⦃u : Unicode⦄ (s t : Str) → to_lower (s ++ t) ≡ to_lower s ++ to_lower t
unfolding to_lower
to_lower-append s t = map-append lower s t
