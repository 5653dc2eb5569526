-- ===== src/Pg/Params/Unchanged.antt =====
-- What a substitution leaves alone, and which parameters it reads.
use Prim.Native.Nat.{max}
use spoofdb.Base.{
  ℕ, zero, suc, ◌+◌, ◌-◌, ◌*◌, ◌<◌, ◌≤◌, ◌≡◌, refl, sym, ◌∙◌, ap, true, List, [], ◌∷◌, ◌++◌, Option,
  some, arith, length, Bool-cases, get_elem?, inl, inr,
}
use spoofdb.Text.{Str}
use spoofdb.Pg.Params.{
  is_digit, digits, decimal, atoi, next_counts, Round, round, scan_from, scan_params,
  max_param_index, param_literal, substitute_params,
}
use spoofdb.Pg.Params.Reference.{scan_params-top_index, max_param_index-top_index}

abbrev drop : ℕ → Str → Str
drop zero s = s
drop (suc k) [] = []
drop (suc k) (c ∷ s) = drop k s

digits-append-drop : (s : Str) → digits s ++ drop (length (digits s)) s ≡ s
unfolding digits
digits-append-drop [] = refl
digits-append-drop (c ∷ s) = elim (Bool-cases (is_digit c)) [
  | inl d ↦ rw d (ap (◌∷◌ c) (digits-append-drop s))
  | inr n ↦ rw n refl
]

le-decimal : (s : Str) (n : ℕ) → n ≤ decimal n s
le-decimal [] n = omega arith
le-decimal (c ∷ s) n = omega (arith, le-decimal s (n * 10 + (c - b'0')))

-- a placeholder's index is not 0
atoi_pos : (s : Str) → next_counts s ≡ true → 0 < atoi (digits s)
unfolding atoi digits
atoi_pos [] h = cc
atoi_pos (c ∷ s) h = ground (arith, le-decimal (digits s) (c - b'0'))

round_copies :
    (replace : Option (ℕ → Str)) (q c : ℕ) (s : Str)
    → (round replace q c s).index ≡ 0
    → (round replace q c s).out ++ drop (round replace q c s).skip s ≡ c ∷ s
unfolding round
round_copies replace q c [] h = ground (arith, atoi_pos [])
round_copies replace q c (d ∷ s) h = ground (arith, atoi_pos (d ∷ s))

scan_from_copies :
    (replace : Option (ℕ → Str)) (k : ℕ) (s : Str) (q : ℕ)
    → (scan_from replace q k s).1 ≡ 0
    → (scan_from replace q k s).0 ≡ drop k s
unfolding scan_from
scan_from_copies replace zero [] q h = refl
scan_from_copies replace (suc k) [] q h = refl
scan_from_copies replace (suc k) (c ∷ s) q h = scan_from_copies replace k s q h
scan_from_copies replace zero (c ∷ s) q h =
    let r = round replace q c s in
    ap (λ z. r.out ++ z) (scan_from_copies replace r.skip s r.quote (omega arith))
    ∙ round_copies replace q c s (omega arith)

-- A query with no placeholder outside its literals is sent as it is, whatever values are bound.
pub substitute_params-eq_self :
    (sql : Str) (params : List (Option Str))
    → max_param_index sql ≡ 0
    → substitute_params sql params ≡ sql
unfolding substitute_params scan_params
substitute_params-eq_self sql params h = scan_from_copies (some (param_literal params)) 0 sql 0 (
    (unfold scan_params in scan_params-top_index sql (some (param_literal params)))
    ∙ rw (← max_param_index-top_index sql) h)

module _ (f g : ℕ → Str) where
  round_agrees :
      (q c : ℕ) (s : Str)
      → ((i : ℕ) → 0 < i → i ≤ (round (some f) q c s).index → f i ≡ g i)
      → round (some f) q c s ≡ round (some g) q c s
  unfolding round
  round_agrees q c s h = ground (arith, atoi_pos s, h (atoi (digits s)))

  scan_from_agrees :
      (k : ℕ) (s : Str) (q : ℕ)
      → ((i : ℕ) → 0 < i → i ≤ (scan_from (some f) q k s).1 → f i ≡ g i)
      → scan_from (some f) q k s ≡ scan_from (some g) q k s
  unfolding scan_from
  scan_from_agrees zero [] q h = refl
  scan_from_agrees (suc k) [] q h = refl
  scan_from_agrees (suc k) (c ∷ s) q h = scan_from_agrees k s q h
  scan_from_agrees zero (c ∷ s) q h =
      let r = round (some f) q c s in
      let rest = scan_from_agrees r.skip s r.quote (λ i p l. h i p (omega arith)) in
      ap (λ (z : Str × ℕ). let w : Str × ℕ = (r.out ++ z.0, max r.index z.1) in w) rest
      ∙ ap
          (λ (z : Round).
            let w : Str × ℕ = (
              z.out ++ (scan_from (some g) z.quote z.skip s).0,
              max z.index (scan_from (some g) z.quote z.skip s).1,
            ) in
            w)
          (round_agrees q c s (λ i p l. h i p (omega arith)))

get_elem?-append :
    (params extra : List (Option Str)) (i : ℕ)
    → i < length params
    → get_elem? (params ++ extra) i ≡ get_elem? params i
get_elem?-append [] extra i h = elim h [ ]
get_elem?-append (p ∷ params) extra zero h = refl
get_elem?-append (p ∷ params) extra (suc i) h = get_elem?-append params extra i (omega arith)

param_literal-append :
    (params extra : List (Option Str)) (i : ℕ)
    → 0 < i
    → i ≤ length params
    → param_literal params i ≡ param_literal (params ++ extra) i
unfolding param_literal
param_literal-append params extra i p l = ground (arith, get_elem?-append params extra (i - 1))

-- Where each placeholder has a value, values past the largest index are not read.
pub substitute_params-append :
    (sql : Str) (params extra : List (Option Str))
    → max_param_index sql ≤ length params
    → substitute_params sql (params ++ extra) ≡ substitute_params sql params
unfolding substitute_params scan_params
substitute_params-append sql params extra h =
    let f = param_literal params in
    let m : (scan_from (some f) 0 0 sql).1 ≡ max_param_index sql =
      (unfold scan_params in scan_params-top_index sql (some f))
      ∙ sym (max_param_index-top_index sql) in
    sym (
      ap (λ (z : Str × ℕ). z.0)
        (scan_from_agrees f (param_literal (params ++ extra)) 0 sql 0
          (λ i p l. param_literal-append params extra i p (omega arith))))
