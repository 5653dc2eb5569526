-- ===== src/Text/Dict.antt =====
-- Go maps with string keys, as association lists. The program does not depend on their order.
use spoofdb.Base.{List, [], ◌∷◌, Option, none, some, if◌then◌else◌}
use spoofdb.Text.{Str, same}

module _ {ℓ} {V : Type ℓ} where
  -- `v, ok := m[k]`
  unfoldable pub lookup : Str → List (Str × V) → Option V
  unfolding same
  lookup k [] = none
  lookup k ((j, v) ∷ m) = if same j k then some v else lookup k m

  -- `m[k] = v`
  unfoldable pub put : Str → V → List (Str × V) → List (Str × V)
  unfolding same
  put k v [] = (k, v) ∷ []
  put k v ((j, w) ∷ m) = if same j k then (k, v) ∷ m else (j, w) ∷ put k v m

  -- `delete(m, k)`
  unfoldable pub delete : Str → List (Str × V) → List (Str × V)
  unfolding same
  delete k [] = []
  delete k ((j, w) ∷ m) = let rest = delete k m in if same j k then rest else (j, w) ∷ rest
