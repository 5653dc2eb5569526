-- ===== src/Pg/Params/Literal.antt =====
-- What the engine reads back from the literals that `substituteParams` writes.
use spoofdb.Base.{
  ℕ, ◌≡◌, refl, false, [], ◌∷◌, ◌++◌, Option, none, some, arith, ◌==◌, if◌then◌else◌,
}
use spoofdb.Text.{Str, codes, replace_char}
use spoofdb.Pg.Params.{next_is, quoted}

-- one more character in front of a literal's value
abbrev and_then : ℕ → Option (Str × Str) → Option (Str × Str)
and_then c none = none
and_then c (some (v, rest)) = some (c ∷ v, rest)

-- The SQL standard's literal behind its opening quote: up to the first quote that is not doubled,
-- and a doubled quote stands for one. The value and what follows the literal, if it is closed.
unfoldable pub literal_body : Str → Option (Str × Str)
literal_body [] = none
literal_body (c ∷ []) = if c == b'\'' then some ([], []) else none
literal_body (c ∷ d ∷ s) =
    let doubled = and_then b'\'' (literal_body s) in
    let plain = and_then c (literal_body (d ∷ s)) in
    if c == b'\'' then if d == b'\'' then doubled else some ([], d ∷ s) else plain

unfoldable pub literal : Str → Option (Str × Str)
unfolding literal_body
literal [] = none
literal (c ∷ s) = if c == b'\'' then literal_body s else none

literal_body-replace_char :
    (v rest : Str)
    → next_is b'\'' rest ≡ false
    → literal_body ((replace_char b'\'' (codes "''") v ++ b'\'' ∷ []) ++ rest) ≡ some (v, rest)
unfolding literal_body replace_char
literal_body-replace_char [] [] h = refl
literal_body-replace_char [] (d ∷ rest) h = ground arith
literal_body-replace_char (c ∷ []) rest h = ground (arith, literal_body-replace_char [] rest h)
literal_body-replace_char (c ∷ d ∷ v) rest h =
    ground (arith, literal_body-replace_char (d ∷ v) rest h)

-- A bound value, whatever quotes it holds, is read back as the value that the client sent, and the
-- literal ends where the substitution ended it, if no quote follows it in the query.
pub literal-quoted :
    (v rest : Str) → next_is b'\'' rest ≡ false → literal (quoted v ++ rest) ≡ some (v, rest)
unfolding literal quoted
literal-quoted v rest h = literal_body-replace_char v rest h
