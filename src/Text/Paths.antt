-- ===== src/Text/Paths.antt =====
-- The functions of package path/filepath that the program calls, on paths with '/'.
use spoofdb.Base.{not, ◌&&◌, [], ◌∷◌, ◌==◌, if◌then◌else◌}
use spoofdb.Text.{Str, same, contains, trim_end}

-- `filepath.Ext`
unfoldable pub ext : Str → Str
unfolding contains
ext [] = []
ext (c ∷ s) =
    let rest = ext s in
    if same rest [] && c == b'.' && not (contains s (b'/' ∷ [])) then c ∷ s else rest

-- the text behind the last '/'
abbrev last_part : Str → Str
last_part [] = []
last_part (c ∷ s) = let rest = last_part s in if contains (c ∷ s) (b'/' ∷ []) then rest else c ∷ s

-- `filepath.Base`
unfoldable pub base_name : Str → Str
unfolding contains trim_end
base_name [] = b'.' ∷ []
base_name (c ∷ s) =
    let part = last_part (trim_end (λ d. d == b'/') (c ∷ s)) in
    if same part [] then b'/' ∷ [] else part

-- `strings.TrimSuffix`
unfoldable pub trim_suffix : Str → Str → Str
unfolding same
trim_suffix [] suffix = []
trim_suffix (c ∷ s) suffix =
    let rest = trim_suffix s suffix in if same (c ∷ s) suffix then [] else c ∷ rest
