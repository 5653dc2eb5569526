-- ===== src/Text.antt =====
-- Go's strings and the functions of package `strings` that the program calls. A string is the list
-- of its characters (Unicode code points); the program indexes strings by bytes, and compares
-- those only with ASCII characters, which are the same at both views.
pub mod Laws
pub mod Dict
pub mod Paths
use Prim.Native.Char.{code}
use spoofdb.Base.{
  ℕ, ◌-◌, ◌+◌, Bool, true, false, ◌&&◌, ◌||◌, not, List, [], ◌∷◌, ◌++◌, map, Option, none, some,
  String, ltb, leb, ◌==◌, if◌then◌else◌,
}

abbrev pub Str : Type 0
Str = List ℕ

-- the characters of a literal
abbrev pub codes : String → Str
codes String.[] = []
codes (String.◌∷◌ c s) = code c ∷ codes s

-- What package `unicode` says of characters above ASCII.
pub record Unicode : Type 0 where
  pub upper_rune : ℕ → ℕ
  pub lower_rune : ℕ → ℕ

-- `==` on strings
unfoldable pub same : Str → Str → Bool
same [] [] = true
same (x ∷ xs) (y ∷ ys) = x == y && same xs ys
same _ _ = false

-- the values of one `case`
unfoldable pub one_of : Str → List Str → Bool
one_of s [] = false
one_of s (w ∷ ws) = same s w || one_of s ws

module _ ⦃u : Unicode⦄ where
  unfoldable pub upper : ℕ → ℕ
  upper c = if ltb c 128 then (if leb b'a' c && leb c b'z' then c - 32 else c) else u.upper_rune c

  unfoldable pub lower : ℕ → ℕ
  lower c = if ltb c 128 then (if leb b'A' c && leb c b'Z' then c + 32 else c) else u.lower_rune c

  -- `strings.ToUpper`, `strings.ToLower`
  unfoldable pub to_upper : Str → Str
  unfolding upper
  to_upper s = map upper s

  unfoldable pub to_lower : Str → Str
  unfolding lower
  to_lower s = map lower s

-- `unicode.IsSpace`
unfoldable pub is_space : ℕ → Bool
is_space c =
    (leb 9 c && leb c 13)
    || c == b' '
    || c == 0x85
    || c == 0xA0
    || c == 0x1680
    || (leb 0x2000 c && leb c 0x200A)
    || c == 0x2028
    || c == 0x2029
    || c == 0x202F
    || c == 0x205F
    || c == 0x3000

-- membership in a cut set, as in `strings.Trim` and `strings.IndexAny`
unfoldable pub any_of : Str → ℕ → Bool
any_of [] c = false
any_of (x ∷ xs) c = x == c || any_of xs c

module _ (p : ℕ → Bool) where
  unfoldable pub drop_while : Str → Str
  drop_while [] = []
  drop_while (c ∷ s) = let rest = drop_while s in if p c then rest else c ∷ s

  -- the string up to the first character that satisfies `p`
  unfoldable pub until : Str → Str
  until [] = []
  until (c ∷ s) = if p c then [] else c ∷ until s

  -- trailing characters that satisfy `p` go
  unfoldable pub trim_end : Str → Str
  trim_end [] = []
  trim_end (c ∷ s) = close (trim_end s)
    where
      close : Str → Str
      close [] = if p c then [] else c ∷ []
      close (d ∷ r) = c ∷ d ∷ r

  -- `strings.TrimFunc`
  unfoldable pub trim : Str → Str
  unfolding drop_while trim_end
  trim s = trim_end (drop_while s)

-- `strings.TrimSpace`
unfoldable pub trim_space : Str → Str
unfolding is_space trim
trim_space s = trim is_space s

-- `strings.HasPrefix`
unfoldable pub has_prefix : Str → Str → Bool
has_prefix s [] = true
has_prefix [] (y ∷ ys) = false
has_prefix (x ∷ xs) (y ∷ ys) = x == y && has_prefix xs ys

-- `strings.Contains`
unfoldable pub contains : Str → Str → Bool
unfolding has_prefix
contains [] sub = has_prefix [] sub
contains (c ∷ s) sub = has_prefix (c ∷ s) sub || contains s sub

-- `strings.ReplaceAll(s, c, t)` for a one-character pattern `c`
unfoldable pub replace_char : ℕ → Str → Str → Str
replace_char c t [] = []
replace_char c t (x ∷ s) = (if x == c then t else x ∷ []) ++ replace_char c t s

-- `strings.Count(s, c)` for a one-character pattern `c`
unfoldable pub count_char : ℕ → Str → ℕ
count_char c [] = 0
count_char c (x ∷ s) = (if x == c then 1 else 0) + count_char c s

-- `strings.Join`
unfoldable pub join : Str → List Str → Str
join sep [] = []
join sep (s ∷ []) = s
join sep (s ∷ t ∷ r) = s ++ (sep ++ join sep (t ∷ r))

-- one word in front of the words that follow
abbrev begin_word : ℕ → Bool → List Str → List Str
begin_word c true ws = (c ∷ []) ∷ ws
begin_word c false [] = (c ∷ []) ∷ []
begin_word c false (w ∷ ws) = (c ∷ w) ∷ ws

-- does a word end in front of this text?
abbrev at_gap : Str → Bool
at_gap [] = true
at_gap (c ∷ _) = is_space c

-- `strings.Fields`
unfoldable pub fields : Str → List Str
unfolding is_space
fields [] = []
fields (c ∷ s) = let ws = fields s in if is_space c then ws else begin_word c (at_gap s) ws
