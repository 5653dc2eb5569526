-- ===== src/Sort/Laws.antt =====
-- A sort orders its list and keeps its elements; on a linear order the result does not depend on the
-- order of the input.
use mathlib.Core.List.{Perm, Permᴰ}
use mathlib.Core.List.Perm
use mathlib.Core.Logic.{∥∥₁_elim}
use spoofdb.Base.{
  ◌≡◌, refl, ap₂, ◌∙◌, Bool, true, false, List, [], ◌∷◌, arith, Bool-cases, inl, inr,
}
use spoofdb.Text.{Str}
use spoofdb.Sort.{le_str, insert, sort, sort_strings}

module _ {ℓ} {A : Type ℓ} (le : A → A → Bool) where
  -- each element is at most the next one
  abbrev pub IsSorted : List A → Type 0
  IsSorted [] = Unit
  IsSorted (x ∷ []) = Unit
  IsSorted (x ∷ y ∷ l) = (le x y ≡ true) × IsSorted (y ∷ l)

  module _ (total : (a b : A) → le a b ≡ false → le b a ≡ true) where
    insert-IsSorted : (a : A) (l : List A) → IsSorted l → IsSorted (insert le a l)
    unfolding insert
    insert-IsSorted a [] h = tt
    insert-IsSorted a (x ∷ []) h = elim (Bool-cases (le a x)) [
      | inl y ↦ rw y (y, tt)
      | inr n ↦ rw n (total a x n, tt)
    ]
    insert-IsSorted a (x ∷ y ∷ l) h =
        ground (arith, total a x, total a y, insert-IsSorted a (y ∷ l) h.1)

    pub sort-IsSorted : (l : List A) → IsSorted (sort le l)
    unfolding sort
    sort-IsSorted [] = tt
    sort-IsSorted (x ∷ l) = insert-IsSorted x (sort le l) (sort-IsSorted l)

  insert-perm : (a : A) (l : List A) → Perm (insert le a l) (a ∷ l)
  unfolding insert
  insert-perm a [] = Perm.refl _
  insert-perm a (x ∷ l) = elim (Bool-cases (le a x)) [
    | inl y ↦ rw y (Perm.refl _)
    | inr n ↦ rw n (Perm.trans (Perm.cons x (insert-perm a l)) (Perm.swap _ _ _))
  ]

  pub sort-perm : (l : List A) → Perm (sort le l) l
  unfolding sort
  sort-perm [] = Perm.refl _
  sort-perm (x ∷ l) = Perm.trans (insert-perm x (sort le l)) (Perm.cons x (sort-perm l))

  module _ (total : (a b : A) → le a b ≡ false → le b a ≡ true)
      (antisym : (a b : A) → le a b ≡ true → le b a ≡ true → a ≡ b)
      (trans : (a b c : A) → le a b ≡ true → le b c ≡ true → le a c ≡ true) where
    insert_comm : (a b : A) (l : List A) → insert le a (insert le b l) ≡ insert le b (insert le a l)
    unfolding insert
    insert_comm a b [] = ground (arith, total a b, total b a, antisym a b)
    insert_comm a b (x ∷ l) = ground (
      arith,
      total a b,
      total b a,
      antisym a b,
      total a x,
      total b x,
      trans a b x,
      trans b a x,
      trans x a b,
      trans x b a,
      insert_comm a b l,
    )

    sort-Permᴰ : {l m : List A} → Permᴰ l m → sort le l ≡ sort le m
    unfolding sort
    sort-Permᴰ Permᴰ.nil = refl
    sort-Permᴰ (Permᴰ.cons {a} {b} {l₁} {l₂} e p) = ap₂ (insert le) e (sort-Permᴰ p)
    sort-Permᴰ (Permᴰ.swap {a} {b} {a'} {b'} {l} e f) =
        insert_comm a b (sort le l) ∙ ap₂ (λ x y. insert le x (insert le y (sort le l))) f e
    sort-Permᴰ (Permᴰ.trans p q) = sort-Permᴰ p ∙ sort-Permᴰ q

    pub sort_canonical : IsSet (List A) → {l m : List A} → Perm l m → sort le l ≡ sort le m
    sort_canonical set p = ∥∥₁_elim p (set _ _) sort-Permᴰ

pub le_str_total : (a b : Str) → le_str a b ≡ false → le_str b a ≡ true
unfolding le_str
le_str_total [] b h = cc
le_str_total (x ∷ a) [] h = refl
le_str_total (x ∷ a) (y ∷ b) h = ground (arith, le_str_total a b)

le_str_antisym : (a b : Str) → le_str a b ≡ true → le_str b a ≡ true → a ≡ b
unfolding le_str
le_str_antisym [] [] h k = refl
le_str_antisym [] (y ∷ b) h k = cc
le_str_antisym (x ∷ a) [] h k = cc
le_str_antisym (x ∷ a) (y ∷ b) h k = ground (arith, le_str_antisym a b)

le_str_trans : (a b c : Str) → le_str a b ≡ true → le_str b c ≡ true → le_str a c ≡ true
unfolding le_str
le_str_trans [] b c h k = refl
le_str_trans (x ∷ a) [] c h k = cc
le_str_trans (x ∷ a) (y ∷ b) [] h k = cc
le_str_trans (x ∷ a) (y ∷ b) (z ∷ c) h k = ground (arith, le_str_trans a b c)

-- Two lists with the same strings, as often, sort to the same list.
pub sort_strings_canonical : {l m : List Str} → Perm l m → sort_strings l ≡ sort_strings m
unfolding sort_strings
sort_strings_canonical = sort_canonical le_str le_str_total le_str_antisym le_str_trans (hlevel)

pub sort_strings-perm : (l : List Str) → Perm (sort_strings l) l
unfolding sort_strings
sort_strings-perm = sort-perm le_str

pub sort_strings-IsSorted : (l : List Str) → IsSorted le_str (sort_strings l)
unfolding sort_strings
sort_strings-IsSorted = sort-IsSorted le_str le_str_total
