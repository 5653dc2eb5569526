-- ===== src/Sort.antt =====
-- `sort.Strings` and `sort.Slice`, as insertion into a sorted list, and the order on strings.
pub mod Laws
use spoofdb.Base.{ℕ, Bool, true, false, not, ◌&&◌, ◌||◌, List, [], ◌∷◌, ltb, ◌==◌, if◌then◌else◌}
use spoofdb.Text.{Str}

-- `a <= b` on strings
unfoldable pub le_str : Str → Str → Bool
le_str [] b = true
le_str (x ∷ a) [] = false
le_str (x ∷ a) (y ∷ b) = let rest = le_str a b in if x == y then rest else ltb x y

module _ {ℓ} {A : Type ℓ} (le : A → A → Bool) where
  unfoldable pub insert : A → List A → List A
  insert a [] = a ∷ []
  insert a (x ∷ xs) = if le a x then a ∷ x ∷ xs else x ∷ insert a xs

  unfoldable pub sort : List A → List A
  unfolding insert
  sort [] = []
  sort (x ∷ xs) = insert x (sort xs)

-- `sort.Strings`
unfoldable pub sort_strings : List Str → List Str
unfolding sort le_str
sort_strings = sort le_str
