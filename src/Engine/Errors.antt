-- ===== src/Engine/Errors.antt =====
-- internal/engine/duckdb.go: `errClass`, `classifyErr`, `missingRelationName`, `firstLine`. An
-- `error` is its message, and `nil` is `none`.
pub mod Messages
use spoofdb.Base.{
  ℕ, Bool, true, false, not, ◌&&◌, ◌||◌, List, [], ◌∷◌, ◌++◌, Option, none, some, ◌==◌,
  if◌then◌else◌,
}
use spoofdb.Text.{Str, codes, Unicode, to_lower, contains, has_prefix, any_of, until, trim}

-- `errClass`
pub data ErrClass : Type 0 where
  app missing_relation dialect_gap : ErrClass

-- what the first case of `classifyErr` asks of the message in lower case
unfoldable pub names_relation : Str → Bool
names_relation m =
    contains m (codes "does not exist")
    && (contains m (codes "table with name")
        || (contains m (codes "view with name")
            || (contains m (codes "with name") && not (contains m (codes "column")))))

unfoldable pub classify_message : Str → ErrClass
unfolding names_relation
classify_message m =
    if names_relation m
    then missing_relation
    else if contains m (codes "not implemented error")
    then dialect_gap
    else if contains m (codes "unrecognized configuration parameter")
    then dialect_gap
    else app

-- `classifyErr`
unfoldable pub classify_err : ⦃u : Unicode⦄ → Option Str → ErrClass
unfolding classify_message
classify_err none = app
classify_err (some m) = classify_message (to_lower m)

-- `\s` of the regular expression
abbrev pub is_blank : ℕ → Bool
is_blank c = c == b'\t' || (c == b'\n' || (c == 12 || (c == b'\r' || c == b' ')))

-- what `[^"\s]` leaves out
abbrev pub ends_name : ℕ → Bool
ends_name c = c == b'"' || is_blank c

-- the text behind a prefix
unfoldable pub strip_prefix : Str → Str → Option Str
strip_prefix s [] = some s
strip_prefix [] (y ∷ ys) = none
strip_prefix (x ∷ xs) (y ∷ ys) = let rest = strip_prefix xs ys in if x == y then rest else none

-- `"?`
abbrev pub skip_quote : Str → Str
skip_quote [] = []
skip_quote (c ∷ s) = if c == b'"' then s else c ∷ s

-- the text behind the longest run of `[^"\s]`
unfoldable pub behind_name : Str → Str
behind_name [] = []
behind_name (c ∷ s) = if ends_name c then c ∷ s else behind_name s

-- `([^"\s]+)"? does not exist`. The run is the longest: what may follow it is not in its class.
unfoldable pub match_name : Str → Option Str
unfolding until behind_name has_prefix
match_name [] = none
match_name (c ∷ s) =
    let name = until ends_name (c ∷ s) in
    if ends_name c
    then none
    else if has_prefix (skip_quote (behind_name (c ∷ s))) (codes " does not exist")
    then some name
    else none

-- the whole expression, `with name "?([^"\s]+)"? does not exist`, at the start of a text
unfoldable pub match_here : Str → Option Str
unfolding strip_prefix match_name
match_here s = elim (strip_prefix s (codes "with name ")) [
  | none ↦ none
  | some rest ↦ match_name (skip_quote rest)
]

-- `reMissingName.FindStringSubmatch`: the leftmost match, and its group
unfoldable pub find_name : Str → Option Str
unfolding match_here
find_name [] = none
find_name (c ∷ s) =
    let rest = find_name s in elim (match_here (c ∷ s)) [ none ↦ rest | some name ↦ some name ]

-- `missingRelationName`
unfoldable pub missing_relation_name : Option Str → Str
unfolding find_name
missing_relation_name none = codes "?"
missing_relation_name (some m) = elim (find_name m) [
  | none ↦ codes "?"
  | some name ↦ trim (any_of (codes "\"")) name
]

-- `firstLine`
unfoldable pub first_line : Str → Str
unfolding until
first_line s = until (λ c. c == b'\n') s
