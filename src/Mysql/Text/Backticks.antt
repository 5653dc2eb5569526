-- ===== src/Mysql/Text/Backticks.antt =====
-- Which characters `backticksToQuotes` changes.
use spoofdb.Base.{
  ◌≡◌, refl, sym, ◌∙◌, ap, Bool, true, false, not, [], ◌∷◌, ◌++◌, arith, ◌==◌, if◌then◌else◌,
  Bool-cases, inl, inr,
}
use spoofdb.Text.{Str, contains, has_prefix, replace_char}
use spoofdb.Mysql.Text.{backtick, requote, backticks_to_quotes, escape_sql}

-- is a text literal open behind `s`, by the number of its single quotes?
abbrev pub in_literal : Bool → Str → Bool
in_literal b [] = b
in_literal b (c ∷ s) = in_literal (if c == b'\'' then not b else b) s

requote-append :
    (b : Bool) (s t : Str) → requote b (s ++ t) ≡ requote b s ++ requote (in_literal b s) t
unfolding requote
requote-append b [] t = refl
requote-append b (c ∷ s) t = rw (requote-append (if c == b'\'' then not b else b) s t)

-- with no backtick there is nothing to do
requote_none : (b : Bool) (s : Str) → contains s (backtick ∷ []) ≡ false → requote b s ≡ s
unfolding requote contains has_prefix
requote_none b [] h = refl
requote_none b (c ∷ s) h = ground (arith, requote_none (if c == b'\'' then not b else b) s)

backticks_to_quotes-requote : (q : Str) → backticks_to_quotes q ≡ requote false q
unfolding backticks_to_quotes
backticks_to_quotes-requote q = elim (Bool-cases (contains q (backtick ∷ []))) [
  | inl y ↦ rw y refl
  | inr n ↦ rw n (sym (requote_none false q n))
]

requote-escape_sql :
    (v rest : Str)
    → requote true ((escape_sql v ++ b'\'' ∷ []) ++ rest)
      ≡ (escape_sql v ++ b'\'' ∷ []) ++ requote false rest
unfolding requote escape_sql replace_char
requote-escape_sql [] rest = refl
requote-escape_sql (c ∷ v) rest = ground (arith, requote-escape_sql v rest)

requote-literal :
    (b : Bool) (v rest : Str)
    → b ≡ false
    → requote b (b'\'' ∷ (escape_sql v ++ b'\'' ∷ []) ++ rest)
      ≡ b'\'' ∷ (escape_sql v ++ b'\'' ∷ []) ++ requote false rest
unfolding requote
requote-literal true v rest h = ground arith
requote-literal false v rest h = ap (◌∷◌ b'\'') (requote-escape_sql v rest)

-- Where the text before it has an even number of single quotes, wherever they stand, a text literal
-- in a statement, such as a bound text, is left unchanged, whatever backticks and quotes its value
-- holds, and the text before it and the text behind it are rewritten on their own.
pub backticks_to_quotes-literal :
    (pre v post : Str)
    → in_literal false pre ≡ false
    → backticks_to_quotes (pre ++ (b'\'' ∷ (escape_sql v ++ b'\'' ∷ []) ++ post))
      ≡ backticks_to_quotes pre
        ++ (b'\'' ∷ (escape_sql v ++ b'\'' ∷ []) ++ backticks_to_quotes post)
backticks_to_quotes-literal pre v post h =
    backticks_to_quotes-requote _
    ∙ requote-append false pre _
    ∙ ap (λ z. requote false pre ++ z) (requote-literal (in_literal false pre) v post h)
    ∙ ap (λ z. z ++ (b'\'' ∷ (escape_sql v ++ b'\'' ∷ []) ++ requote false post))
        (sym (backticks_to_quotes-requote pre))
    ∙ ap (λ z. backticks_to_quotes pre ++ (b'\'' ∷ (escape_sql v ++ b'\'' ∷ []) ++ z))
        (sym (backticks_to_quotes-requote post))
