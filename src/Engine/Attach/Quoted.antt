-- ===== src/Engine/Attach/Quoted.antt =====
-- The statement that attaches a source says which source: its parts can be read back.
use spoofdb.Base.{
  ℕ, zero, suc, ◌≡◌, refl, sym, ap, ◌∙◌, false, [], ◌∷◌, ◌++◌, arith, ◌==◌, append_assoc,
}
use spoofdb.Text.{Str, codes, replace_char}
use spoofdb.Engine.Sources.{quote_ident, escape_sql}
use spoofdb.Engine.Attach.{Duck, attach_stmt, detach_stmt}

-- a text whose quotes are doubled ends at the first quote that stands alone
escaped_split :
    (q x y : ℕ) (s t r r' : Str)
    → (x == q) ≡ false
    → (y == q) ≡ false
    → replace_char q (q ∷ q ∷ []) s ++ q ∷ x ∷ r ≡ replace_char q (q ∷ q ∷ []) t ++ q ∷ y ∷ r'
    → (s ≡ t) × (x ∷ r ≡ y ∷ r')
unfolding replace_char
escaped_split q x y [] [] r r' hx hy e = (refl, cc)
escaped_split q x y [] (c ∷ t) r r' hx hy e = absurd (ground arith)
escaped_split q x y (c ∷ s) [] r r' hx hy e = absurd (ground arith)
escaped_split q x y (c ∷ s) (c' ∷ t) r r' hx hy e = ground (arith, escaped_split q x y s t r r')

-- all but the first characters
abbrev skip : ℕ → Str → Str
skip zero s = s
skip (suc n) [] = []
skip (suc n) (c ∷ s) = skip n s

quote_ident_split :
    (x y : ℕ) (a b r r' : Str)
    → (x == b'"') ≡ false
    → (y == b'"') ≡ false
    → quote_ident a ++ x ∷ r ≡ quote_ident b ++ y ∷ r'
    → (a ≡ b) × (x ∷ r ≡ y ∷ r')
unfolding quote_ident
quote_ident_split x y a b r r' hx hy e =
    let quoted : Str → Str = replace_char b'"' (codes "\"\"") in
    escaped_split b'"' x y a b r r' hx hy (
      sym (append_assoc (quoted a) (b'"' ∷ []) (x ∷ r))
      ∙ (ap (skip 1) e ∙ append_assoc (quoted b) (b'"' ∷ []) (y ∷ r')))

module _ {Db : Type 0} (d : Duck Db) where
  -- Whatever quotes a DSN and a name of a source hold, the statement that attaches the source reads
  -- as one DSN and one name: statements that are equal attach the same DSN under the same name.
  pub attach_stmt-injective :
      (dsn dsn' alias alias' t t' : Str)
      → attach_stmt d dsn alias t ≡ attach_stmt d dsn' alias' t'
      → (dsn ≡ dsn') × (alias ≡ alias')
  unfolding attach_stmt escape_sql
  attach_stmt-injective dsn dsn' alias alias' t t' e =
      let (same_dsn, e1) = escaped_split b'\'' b' ' b' ' dsn dsn' _ _ refl refl (ap (skip 8) e) in
      (same_dsn, (quote_ident_split b' ' b' ' alias alias' _ _ refl refl (ap (skip 4) e1)).0)

  detach_stmt-injective :
      (alias alias' : Str) → detach_stmt d alias ≡ detach_stmt d alias' → alias ≡ alias'
  unfolding detach_stmt quote_ident
  detach_stmt-injective alias alias' e =
      (quote_ident_split b' ' b' ' alias alias' [] [] refl refl
        (ap (λ s. s ++ b' ' ∷ []) (ap (skip 7) e))).0
