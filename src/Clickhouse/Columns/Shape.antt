-- ===== src/Clickhouse/Columns/Shape.antt =====
-- The columns of a block have as many cells as the result has rows.
use mathlib.Core.Path.{subst}
use spoofdb.Base.{
  ℕ, suc, ◌+◌, ◌≡◌, refl, ap, true, false, List, [], ◌∷◌, Option, none, some, arith, length,
  length-append, All,
}
use spoofdb.Text.{Unicode}
use spoofdb.Value.{Value, Column, QueryResult}
use spoofdb.Value.Print.{Formats}
use spoofdb.Clickhouse.Columns.{
  Builder, new_builder, builders, cell, push, in_front, add_row, add_rows, build_input,
}

-- each column has `n` cells
abbrev pub IsFilled : ℕ → List Builder → Type 0
IsFilled n = All (λ b. length b.cells ≡ n)

-- each row has a value for each of `n` columns
abbrev pub IsWide : ℕ → List (List Value) → Type 0
IsWide n = All (λ row. length row ≡ n)

-- what is left of a build that succeeds
abbrev pub IsBuilt : ℕ → ℕ → Option (List Builder) → Type 0
IsBuilt width n none = ⊥
IsBuilt width n (some bs) = (length bs ≡ width) × IsFilled n bs

module _ ⦃fm : Formats⦄ where
  in_front-IsBuilt :
      (width n : ℕ) (b : Builder) (o : Option (List Builder))
      → length b.cells ≡ n
      → IsBuilt width n o
      → IsBuilt (suc width) n (in_front b o)
  in_front-IsBuilt width n b none h k = k
  in_front-IsBuilt width n b (some bs) h k = (ap suc k.0, (h, k.1))

  add_row-IsBuilt :
      (n : ℕ) (bs : List Builder) (row : List Value)
      → length row ≡ length bs
      → IsFilled n bs
      → IsBuilt (length bs) (n + 1) (add_row bs row)
  unfolding add_row
  add_row-IsBuilt n [] [] e h = (refl, tt)
  add_row-IsBuilt n [] (v ∷ vs) e h = absurd (omega arith)
  add_row-IsBuilt n (b ∷ bs) [] e h = absurd (omega arith)
  add_row-IsBuilt n (b ∷ bs) (v ∷ vs) e h =
      in_front-IsBuilt (length bs) (n + 1) (push v b) (add_row bs vs)
        (omega (arith, length-append b.cells (cell b.kind v ∷ []), h.0))
        (add_row-IsBuilt n bs vs (omega arith) h.1)

  behind_row :
      (n width : ℕ) (rows : List (List Value)) (o : Option (List Builder))
      → IsBuilt width n o
      → ((bs : List Builder)
          → length bs ≡ width
          → IsFilled n bs
          → IsBuilt width (n + length rows) (add_rows bs rows))
      → IsBuilt width (n + length rows) (elim o [ none ↦ none | some bs ↦ add_rows bs rows ])
  behind_row n width rows none k ih = k
  behind_row n width rows (some bs) k ih = ih bs k.0 k.1

  add_rows-IsBuilt :
      (rows : List (List Value)) (n width : ℕ) (bs : List Builder)
      → length bs ≡ width
      → IsWide width rows
      → IsFilled n bs
      → IsBuilt width (n + length rows) (add_rows bs rows)
  unfolding add_rows
  add_rows-IsBuilt [] n width bs e w h = (e, subst (λ m. IsFilled m bs) (omega arith) h)
  add_rows-IsBuilt (row ∷ rows) n width bs e w h =
      let first : IsBuilt width (n + 1) (add_row bs row) =
        subst (λ m. IsBuilt m (n + 1) (add_row bs row)) e
          (add_row-IsBuilt n bs row (omega arith) h) in
      subst
        (λ m.
          IsBuilt width m (elim (add_row bs row) [ none ↦ none | some bs' ↦ add_rows bs' rows ]))
        (omega arith)
        (behind_row (n + 1) width rows (add_row bs row) first
          (λ bs' e' h'. add_rows-IsBuilt rows (n + 1) width bs' e' w.1 h'))

module _ ⦃u : Unicode⦄ ⦃fm : Formats⦄ where
  length-builders : (cs : List Column) → length (builders cs) ≡ length cs
  length-builders [] = refl
  length-builders (c ∷ cs) = ap suc (length-builders cs)

  builders-IsFilled : (cs : List Column) → IsFilled 0 (builders cs)
  unfolding new_builder
  builders-IsFilled [] = tt
  builders-IsFilled (c ∷ cs) = (refl, builders-IsFilled cs)

  -- A result whose rows have a value for each column is built without a panic: the block has one
  -- column for each column of the result, all of them with one cell for each row, and the header
  -- block as many columns without cells. So the block can be encoded.
  pub build_input-IsBuilt :
      (res : QueryResult)
      → IsWide (length res.cols) res.rows
      → IsBuilt (length res.cols) (length res.rows) (build_input res true)
        × IsBuilt (length res.cols) 0 (build_input res false)
  unfolding build_input
  build_input-IsBuilt res w = (
    subst (λ m. IsBuilt (length res.cols) m (add_rows (builders res.cols) res.rows)) (omega arith)
        (add_rows-IsBuilt res.rows 0 (length res.cols) (builders res.cols)
          (length-builders res.cols) w (builders-IsFilled res.cols)),
    (length-builders res.cols, builders-IsFilled res.cols),
  )
