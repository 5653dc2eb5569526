-- ===== src/Engine/Types/Wrapped.antt =====
-- The loop over the wrappers of a type ends, and takes all of them.
use spoofdb.Base.{
  ℕ, zero, suc, ◌≤◌, ◌<◌, ◌≡◌, refl, ◌∙◌, ap, Bool, false, List, [], ◌∷◌, ◌++◌, Option, none, some,
  arith, ◌==◌, length,
}
use spoofdb.Text.{Str, codes, is_space, drop_while, trim_end, trim, trim_space, until}
use spoofdb.Engine.Errors.{strip_prefix}
use spoofdb.Engine.Types.{
  drop_close, close_of, unwrap_type, first_some, cons_some, unwrap, unwrap_all, duck_name,
  ch_to_duck_type,
}

length-cons_some :
    (c : ℕ) (n : ℕ) (o : Option Str) (t : Str)
    → ((r : Str) → o ≡ some r → length r < n)
    → cons_some c o ≡ some t
    → length t < suc n
length-cons_some c n none t ih h = cc
length-cons_some c n (some r) t ih h =
    let l = ih r refl in
    let y : c ∷ r ≡ t = cc in let e : suc (length r) ≡ length t = ap length y in omega arith

length-drop_close : (s t : Str) → drop_close s ≡ some t → length t < length s
unfolding drop_close
length-drop_close [] t h = cc
length-drop_close (c ∷ []) t h = ground arith
length-drop_close (c ∷ d ∷ s) t h =
    length-cons_some c (length (d ∷ s)) (drop_close (d ∷ s)) t
      (λ r e. length-drop_close (d ∷ s) r e) h

length-strip_prefix : (s p r : Str) → strip_prefix s p ≡ some r → length r ≤ length s
unfolding strip_prefix
length-strip_prefix s [] r h = (let e : length s ≡ length r = ap length (cc) in omega arith)
length-strip_prefix [] (y ∷ ys) r h = cc
length-strip_prefix (x ∷ xs) (y ∷ ys) r h = ground (arith, length-strip_prefix xs ys r)

length-close_of :
    (n : ℕ) (o : Option Str) (t : Str)
    → ((r : Str) → o ≡ some r → length r ≤ n)
    → close_of o ≡ some t
    → length t < n
length-close_of n none t ih h = cc
length-close_of n (some r) t ih h =
    let a = ih r refl in let b = length-drop_close r t h in omega arith

length-unwrap_type : (s w t : Str) → unwrap_type s w ≡ some t → length t < length s
unfolding unwrap_type
length-unwrap_type s w t h =
    length-close_of (length s) (strip_prefix s (w ++ b'(' ∷ [])) t
      (λ r e. length-strip_prefix s (w ++ b'(' ∷ []) r e) h

length-first_some :
    (n : ℕ) (a b : Option Str) (t : Str)
    → ((r : Str) → a ≡ some r → length r < n)
    → ((r : Str) → b ≡ some r → length r < n)
    → first_some a b ≡ some t
    → length t < n
length-first_some n none b t ia ib h = ib t h
length-first_some n (some a) b t ia ib h = ia t h

length-unwrap : (s t : Str) → unwrap s ≡ some t → length t < length s
unfolding unwrap
length-unwrap s t h =
    length-first_some (length s) _ _ t (λ r e. length-unwrap_type s (codes "Nullable") r e)
      (λ r e. length-unwrap_type s (codes "LowCardinality") r e) h

unwrap_all_step :
    (n m : ℕ) (s : Str) (o : Option Str)
    → unwrap s ≡ o
    → ((t : Str)
        → unwrap s ≡ some t
        → (unwrap (unwrap_all n t) ≡ none) × (unwrap_all n t ≡ unwrap_all m t))
    → (unwrap (elim o [ none ↦ s | some t ↦ unwrap_all n t ]) ≡ none)
      × (elim o as (λ _. Str) [ none ↦ s | some t ↦ unwrap_all n t ]
          ≡ elim o [ none ↦ s | some t ↦ unwrap_all m t ])
unwrap_all_step n m s none y ih = (y, refl)
unwrap_all_step n m s (some t) y ih = ih t y

-- The loop of `chToDuckType` ends: with as many rounds as the text is long, what is left has no
-- wrapper, and more rounds change nothing.
pub unwrap_all_enough :
    (n m : ℕ) (s : Str)
    → length s ≤ n
    → length s ≤ m
    → (unwrap (unwrap_all n s) ≡ none) × (unwrap_all n s ≡ unwrap_all m s)
unfolding unwrap_all
unwrap_all_enough zero zero [] h k = (unfold unwrap unwrap_type strip_prefix in refl, refl)
unwrap_all_enough zero m (c ∷ s) h k = absurd (omega arith)
unwrap_all_enough zero (suc m) [] h k = unfold unwrap unwrap_type strip_prefix in (refl, refl)
unwrap_all_enough (suc n) zero [] h k = unfold unwrap unwrap_type strip_prefix in (refl, refl)
unwrap_all_enough (suc n) zero (c ∷ s) h k = absurd (omega arith)
unwrap_all_enough (suc n) (suc m) s h k =
    unwrap_all_step n m s (unwrap s) refl
      (λ t e. (let l = length-unwrap s t e in unwrap_all_enough n m t (omega arith) (omega arith)))

drop_close-snoc : (s : Str) → drop_close (s ++ b')' ∷ []) ≡ some s
unfolding drop_close
drop_close-snoc [] = refl
drop_close-snoc (c ∷ []) = refl
drop_close-snoc (c ∷ d ∷ s) = ap (cons_some c) (drop_close-snoc (d ∷ s))

-- the two wrappers
pub data Wrapper : Type 0 where
  nullable low_cardinality : Wrapper

abbrev pub wrapper_name : Wrapper → Str
wrapper_name nullable = codes "Nullable"
wrapper_name low_cardinality = codes "LowCardinality"

abbrev pub wrap : Wrapper → Str → Str
wrap w s = wrapper_name w ++ b'(' ∷ (s ++ b')' ∷ [])

abbrev pub wrap_all : List Wrapper → Str → Str
wrap_all [] s = s
wrap_all (w ∷ ws) s = wrap w (wrap_all ws s)

unwrap-wrap : (w : Wrapper) (s : Str) → unwrap (wrap w s) ≡ some s
unfolding unwrap unwrap_type strip_prefix
unwrap-wrap nullable s =
    ap (λ o. first_some o (unwrap_type (wrap nullable s) (codes "LowCardinality")))
      (drop_close-snoc s)
unwrap-wrap low_cardinality s = drop_close-snoc s

unwrap_all_wrapped :
    (n : ℕ) (w : Wrapper) (s : Str) → unwrap_all (suc n) (wrap w s) ≡ unwrap_all n s
unfolding unwrap_all
unwrap_all_wrapped n w s =
    ap (λ o. elim o as (λ _. Str) [ none ↦ wrap w s | some inner ↦ unwrap_all n inner ])
      (unwrap-wrap w s)

trim_end_solid :
    (p : ℕ → Bool) (s : Str) (c : ℕ) → p c ≡ false → trim_end p (s ++ c ∷ []) ≡ s ++ c ∷ []
unfolding trim_end
trim_end_solid p [] c h = rw h refl
trim_end_solid p (d ∷ []) c h = rw (trim_end_solid p [] c h) refl
trim_end_solid p (d ∷ e ∷ s) c h = rw (trim_end_solid p (e ∷ s) c h) refl

trim_solid :
    (p : ℕ → Bool) (c : ℕ) (s : Str) (d : ℕ)
    → p c ≡ false
    → p d ≡ false
    → trim p (c ∷ (s ++ d ∷ [])) ≡ c ∷ (s ++ d ∷ [])
unfolding trim drop_while
trim_solid p c s d h k = rw h (trim_end_solid p (c ∷ s) d k)

trim_space-wrap : (w : Wrapper) (s : Str) → trim_space (wrap w s) ≡ wrap w s
unfolding trim_space is_space
trim_space-wrap nullable s = trim_solid is_space b'N' (codes "ullable" ++ b'(' ∷ s) b')' refl refl
trim_space-wrap low_cardinality s =
    trim_solid is_space b'L' (codes "owCardinality" ++ b'(' ∷ s) b')' refl refl

trim_space-wrap_all :
    (ws : List Wrapper) (t : Str) → trim_space t ≡ t → trim_space (wrap_all ws t) ≡ wrap_all ws t
trim_space-wrap_all [] t h = h
trim_space-wrap_all (w ∷ ws) t h = trim_space-wrap w (wrap_all ws t)

unwrap_all-wrap_all :
    (ws : List Wrapper) (t : Str) (n m : ℕ)
    → length (wrap_all ws t) ≤ n
    → length t ≤ m
    → unwrap_all n (wrap_all ws t) ≡ unwrap_all m t
unwrap_all-wrap_all [] t n m h k = (unwrap_all_enough n m t h k).1
unwrap_all-wrap_all (w ∷ ws) t zero m h k =
    let l = length-unwrap _ _ (unwrap-wrap w (wrap_all ws t)) in absurd (omega arith)
unwrap_all-wrap_all (w ∷ ws) t (suc n) m h k =
    let l = length-unwrap _ _ (unwrap-wrap w (wrap_all ws t)) in
    unwrap_all_wrapped n w (wrap_all ws t) ∙ unwrap_all-wrap_all ws t n m (omega arith) k

-- A ClickHouse type without blanks around it gets the same DuckDB type in any number of wrappers,
-- Nullable and LowCardinality in whatever order.
pub ch_to_duck_type-wrap_all :
    (ws : List Wrapper) (t : Str)
    → trim_space t ≡ t
    → ch_to_duck_type (wrap_all ws t) ≡ ch_to_duck_type t
unfolding ch_to_duck_type
ch_to_duck_type-wrap_all ws t h =
    rw (trim_space-wrap_all ws t h, h)
      (ap (λ z. duck_name (until (λ c. c == b'(') z))
        (unwrap_all-wrap_all ws t (length (wrap_all ws t)) (length t) (omega arith) (omega arith)))
