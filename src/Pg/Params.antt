-- ===== src/Pg/Params.antt =====
-- internal/pg/handler.go: `scanParams`, `maxParamIndex` and `substituteParams`. The proofs are in
-- the modules below.
pub mod Reference
pub mod Free
pub mod Literal
pub mod Unchanged
use Prim.Native.Nat.{max, min}
use spoofdb.Base.{
  ℕ, zero, suc, ◌+◌, ◌-◌, ◌*◌, ◌^◌, Bool, true, false, not, ◌&&◌, ◌||◌, List, [], ◌∷◌, ◌++◌, Option,
  none, some, leb, ◌==◌, if◌then◌else◌, length, get_elem?,
}
use spoofdb.Text.{Str, codes, replace_char}

abbrev pub is_digit : ℕ → Bool
is_digit c = leb b'0' c && leb c b'9'

-- the digits from here on: `for j < len(sql) && sql[j] >= '0' && sql[j] <= '9' { j++ }`
unfoldable pub digits : Str → Str
digits [] = []
digits (c ∷ s) = if is_digit c then c ∷ digits s else []

-- the number that digits spell behind `n`
abbrev pub decimal : ℕ → Str → ℕ
decimal n [] = n
decimal n (c ∷ s) = decimal (n * 10 + (c - b'0')) s

-- `idx, _ := strconv.Atoi(digits)`: out of range, the value is the largest `int`
unfoldable pub atoi : Str → ℕ
atoi s = min (decimal 0 s) (2 ^ 63 - 1)

-- `i+1 < len(sql) && sql[i+1] == c`
abbrev pub next_is : ℕ → Str → Bool
next_is c [] = false
next_is c (d ∷ _) = d == c

-- `i+1 < len(sql) && sql[i+1] >= '1' && sql[i+1] <= '9'`
abbrev pub next_counts : Str → Bool
next_counts [] = false
next_counts (d ∷ _) = leb b'1' d && leb d b'9'

-- What one round of the loop writes, the index it has seen (0 if none), the value of `quote` behind
-- it, and how many more characters it has consumed.
pub record Round : Type 0 where
  pub out : Str
  pub index : ℕ
  pub quote : ℕ
  pub skip : ℕ

abbrev copied : Str → ℕ → ℕ → Round
copied out quote skip = record { out = out; index = 0; quote = quote; skip = skip }

-- `if replace != nil { b.WriteString(replace(idx)) } else { b.WriteString(sql[i:j]) }`
abbrev pub written : Option (ℕ → Str) → Str → Str
written none ds = b'$' ∷ ds
written (some replace) ds = replace (atoi ds)

-- one round of the loop, at the character `c` with `s` behind it; `quote` is 0 outside literals
unfoldable pub round : Option (ℕ → Str) → ℕ → ℕ → Str → Round
unfolding digits
round replace quote c s =
    if not (quote == 0)
    then if c == quote
      then if next_is quote s then copied (c ∷ quote ∷ []) quote 1 else copied (c ∷ []) 0 0
      else copied (c ∷ []) quote 0
    else if c == b'\'' || c == b'"'
    then copied (c ∷ []) c 0
    else if c == b'$' && next_counts s
    then record {
      out = written replace (digits s);
      index = atoi (digits s);
      quote = 0;
      skip = length (digits s);
    }
    else copied (c ∷ []) 0 0

-- the loop: what it writes from here on, and the largest index it meets
unfoldable pub scan_from : Option (ℕ → Str) → ℕ → ℕ → Str → Str × ℕ
scan_from replace quote skip [] = ([], 0)
scan_from replace quote (suc k) (c ∷ s) = scan_from replace quote k s
scan_from replace quote zero (c ∷ s) =
    let r = round replace quote c s in
    let rest = scan_from replace r.quote r.skip s in (r.out ++ rest.0, max r.index rest.1)

-- `scanParams`
unfoldable pub scan_params : Str → Option (ℕ → Str) → Str × ℕ
scan_params sql replace = scan_from replace 0 0 sql

-- `maxParamIndex`
unfoldable pub max_param_index : Str → ℕ
max_param_index sql = (scan_params sql none).1

-- "'" + strings.ReplaceAll(value, "'", "''") + "'"
unfoldable pub quoted : Str → Str
quoted v = b'\'' ∷ (replace_char b'\'' (codes "''") v ++ b'\'' ∷ [])

-- the closure of `substituteParams`; a parameter that is NULL is `none`
unfoldable pub param_literal : List (Option Str) → ℕ → Str
param_literal params idx = elim (get_elem? params (idx - 1)) [
  | some (some v) ↦ quoted v
  | _ ↦ codes "NULL"
]

-- `substituteParams`
unfoldable pub substitute_params : Str → List (Option Str) → Str
substitute_params sql params = (scan_params sql (some (param_literal params))).0
