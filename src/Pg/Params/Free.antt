-- ===== src/Pg/Params/Free.antt =====
-- The text that `substituteParams` builds has no placeholder left.
use spoofdb.Base.{
  ℕ, zero, suc, ◌≡◌, refl, ◌∙◌, true, false, List, [], ◌∷◌, ◌++◌, Option, none, some, arith, length,
  get_elem?, ◌-◌,
}
use spoofdb.Text.{Str, codes, replace_char}
use spoofdb.Pg.Params.{
  digits, atoi, next_counts, round, scan_from, scan_params, max_param_index, quoted, param_literal,
  substitute_params,
}
use spoofdb.Pg.Params.Reference.{is_mode, top_index, is_mode-round, max_param_index-top_index}

-- A text that the reference reads as complete literals or words: it leaves what follows alone, and
-- no digit comes first.
pub record IsInert (w : Str) : Type 0 where
  pub passes : (rest : Str) → top_index 0 (w ++ rest) ≡ top_index 0 rest
  pub no_digit : (rest : Str) → next_counts (w ++ rest) ≡ false

top_index_inside :
    (v rest : Str)
    → top_index b'\'' ((replace_char b'\'' (codes "''") v ++ b'\'' ∷ []) ++ rest) ≡ top_index 0 rest
unfolding top_index replace_char
top_index_inside [] rest = ground arith
top_index_inside (c ∷ v) rest = ground (arith, top_index_inside v rest)

quoted-IsInert : (v : Str) → IsInert (quoted v)
unfolding quoted top_index
quoted-IsInert v = record {
  passes = λ rest. ground (arith, top_index_inside v rest);
  no_digit = λ rest. refl;
}

null-IsInert : IsInert (codes "NULL")
unfolding top_index
null-IsInert = record { passes = λ rest. ground arith; no_digit = λ rest. refl }

pub param_literal-IsInert : (params : List (Option Str)) (i : ℕ) → IsInert (param_literal params i)
unfolding param_literal
param_literal-IsInert params i = go (get_elem? params (i - 1))
  where
    go :
        (o : Option (Option Str)) → IsInert (elim o [ some (some v) ↦ quoted v | _ ↦ codes "NULL" ])
    go none = null-IsInert
    go (some none) = null-IsInert
    go (some (some v)) = quoted-IsInert v

module _ (replace : ℕ → Str) (inert : (i : ℕ) → IsInert (replace i)) where
  next_counts-scan_from :
      (q : ℕ) (s : Str)
      → next_counts s ≡ false
      → next_counts (scan_from (some replace) q 0 s).0 ≡ false
  unfolding scan_from round
  next_counts-scan_from q [] h = refl
  next_counts-scan_from q (c ∷ s) h = ground (
    arith,
    (inert (atoi (digits s))).no_digit (scan_from (some replace) 0 (length (digits s)) s).0,
  )

  -- one round in front of a text that the reference finds free
  round_free :
      (q c : ℕ) (s tail : Str)
      → is_mode q ≡ true
      → top_index (round (some replace) q c s).quote tail ≡ 0
      → (q ≡ 0 → next_counts s ≡ false → next_counts tail ≡ false)
      → top_index q ((round (some replace) q c s).out ++ tail) ≡ 0
  unfolding round top_index
  round_free q c s tail m free head = ground (arith, (inert (atoi (digits s))).passes tail)

  skip_round :
      (q c : ℕ) (s : Str) → q ≡ 0 → next_counts s ≡ false → (round (some replace) q c s).skip ≡ 0
  unfolding round
  skip_round q c s z h = ground arith

  top_index-scan_from :
      (k : ℕ) (s : Str) (q : ℕ)
      → is_mode q ≡ true
      → top_index q (scan_from (some replace) q k s).0 ≡ 0
  unfolding scan_from
  top_index-scan_from k [] q m = unfold top_index in refl
  top_index-scan_from (suc k) (c ∷ s) q m = top_index-scan_from k s q m
  top_index-scan_from zero (c ∷ s) q m =
      let r = round (some replace) q c s in
      round_free q c s _ m
        (top_index-scan_from r.skip s r.quote (is_mode-round (some replace) q c s m))
        (λ z h. rw (skip_round q c s z h) (next_counts-scan_from r.quote s h))

-- Whatever the query and the bound values, the text that is sent to the engine has no placeholder
-- outside its literals: no bound value can add one, and none is left without a value.
pub max_param_index-substitute_params :
    (sql : Str) (params : List (Option Str)) → max_param_index (substitute_params sql params) ≡ 0
unfolding substitute_params scan_params
max_param_index-substitute_params sql params =
    max_param_index-top_index _
    ∙ top_index-scan_from (param_literal params) (param_literal-IsInert params) 0 sql 0 refl
