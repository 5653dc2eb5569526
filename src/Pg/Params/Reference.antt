-- ===== src/Pg/Params/Reference.antt =====
-- A description of placeholders that reads one character at a time: a quote character opens or
-- closes a literal, so that a doubled quote closes it and opens it again.
use Prim.Native.Nat.{max}
use spoofdb.Base.{
  Bool, refl, ◌≢◌, ap₂, Option, none, ◌⊎◌, ap, ◌∙◌, ℕ, zero, suc, ◌≡◌, inl, inr, true, ◌&&◌, ◌||◌,
  [], ◌∷◌, arith, ◌==◌, if◌then◌else◌, length, Bool-cases,
}
use spoofdb.Text.{Str}
use spoofdb.Pg.Params.{
  is_digit, digits, atoi, next_counts, round, scan_from, scan_params, max_param_index,
}

-- the literal that is open behind `c`
abbrev pub toggle : ℕ → ℕ → ℕ
toggle quote c =
    if quote == 0 then if c == b'\'' || c == b'"' then c else 0 else if c == quote then 0 else quote

-- the index of a placeholder that starts at `c`, or 0
abbrev pub index_at : ℕ → ℕ → Str → ℕ
index_at quote c s = if quote == 0 && (c == b'$' && next_counts s) then atoi (digits s) else 0

-- the largest index of a placeholder outside the literals
unfoldable pub top_index : ℕ → Str → ℕ
top_index quote [] = 0
top_index quote (c ∷ s) = max (index_at quote c s) (top_index (toggle quote c) s)

-- the open literals that there are
abbrev pub is_mode : ℕ → Bool
is_mode q = q == 0 || (q == b'\'' || q == b'"')

abbrev Skips : ℕ → Str → Type 0
Skips zero s = Unit
Skips (suc k) [] = Unit
Skips (suc k) (c ∷ s) = (is_digit c ≡ true) × Skips k s

-- What the loop skips: the digits of a placeholder, or the second of two quotes.
abbrev Ready : ℕ → ℕ → Str → Type 0
Ready q zero s = Unit
Ready q (suc k) [] = Unit
Ready q (suc k) (c ∷ s) =
    ((q ≡ 0) × (is_digit c ≡ true) × Skips k s) ⊎ ((k ≡ 0) × (c ≡ q) × (q ≢ 0))

-- the literal that the reference has open where the loop is to skip `k` characters
abbrev behind : ℕ → ℕ → ℕ
behind q zero = q
behind q (suc k) = 0

Skips-digits : (s : Str) → Skips (length (digits s)) s
unfolding digits
Skips-digits [] = tt
Skips-digits (c ∷ s) = elim (Bool-cases (is_digit c)) [
  | inl d ↦ rw d (d, Skips-digits s)
  | inr n ↦ rw n tt
]

Ready-of_Skips : (k : ℕ) (s : Str) → Skips k s → Ready 0 k s
Ready-of_Skips zero s h = tt
Ready-of_Skips (suc k) [] h = tt
Ready-of_Skips (suc k) (c ∷ s) h = inl (refl, h.0, h.1)

behind_zero : (k : ℕ) → behind 0 k ≡ 0
behind_zero zero = refl
behind_zero (suc k) = refl

module _ (replace : Option (ℕ → Str)) (q c : ℕ) where
  round_index : (s : Str) → (round replace q c s).index ≡ index_at q c s
  unfolding round
  round_index s = ground arith

  behind-round :
      (s : Str) → behind (round replace q c s).quote (round replace q c s).skip ≡ toggle q c
  unfolding round
  behind-round s = ground (arith, behind_zero (length (digits s)))

  pub is_mode-round : (s : Str) → is_mode q ≡ true → is_mode (round replace q c s).quote ≡ true
  unfolding round
  is_mode-round s h = ground arith

  round-Ready : (s : Str) → Ready (round replace q c s).quote (round replace q c s).skip s
  unfolding round
  round-Ready [] = ground arith
  round-Ready (d ∷ s) = ground (arith, Ready-of_Skips _ _ (Skips-digits (d ∷ s)))

scan_from_index :
    (replace : Option (ℕ → Str)) (q k : ℕ) (s : Str)
    → is_mode q ≡ true
    → Ready q k s
    → (scan_from replace q k s).1 ≡ top_index (behind q k) s
unfolding scan_from top_index
scan_from_index replace q zero [] m h = refl
scan_from_index replace q (suc k) [] m h = refl
scan_from_index replace q zero (c ∷ s) m h =
    let r = round replace q c s in
    ap₂ max (round_index replace q c s) (
      scan_from_index replace r.quote r.skip s (is_mode-round replace q c s m)
        (round-Ready replace q c s)
      ∙ ap (λ z. top_index z s) (behind-round replace q c s))
scan_from_index replace q (suc k) (c ∷ s) m (inl (z, d, t)) =
    ground (arith, scan_from_index replace q k s m, Ready-of_Skips k s t, behind_zero k)
scan_from_index replace q (suc zero) (c ∷ s) m (inr (z, e, n)) =
    ground (arith, scan_from_index replace q 0 s m tt)
scan_from_index replace q (suc (suc k)) (c ∷ s) m (inr (z, e, n)) = absurd (omega arith)

-- Whatever is written in place of the placeholders, the loop reports the largest index of a
-- placeholder outside the literals, as the reference finds it.
pub scan_params-top_index :
    (sql : Str) (replace : Option (ℕ → Str)) → (scan_params sql replace).1 ≡ top_index 0 sql
unfolding scan_params
scan_params-top_index sql replace = scan_from_index replace 0 0 sql refl tt

pub max_param_index-top_index : (sql : Str) → max_param_index sql ≡ top_index 0 sql
unfolding max_param_index
max_param_index-top_index sql = scan_params-top_index sql none
