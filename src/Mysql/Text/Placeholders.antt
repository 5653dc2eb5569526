-- ===== src/Mysql/Text/Placeholders.antt =====
-- The placeholders that a prepared statement reports, and those that are substituted.
use spoofdb.Base.{ℕ, ◌+◌, Bool, true, false, not, ◌&&◌, [], ◌∷◌, ◌==◌, if◌then◌else◌}
use spoofdb.Text.{Str}
use spoofdb.Value.{Value}
use spoofdb.Mysql.Text.{opens}

-- the literal that is open behind `c`, and whether the next character is escaped
abbrev pub mode_after : ℕ → ℕ → Str → ℕ × Bool
mode_after quote c [] =
    if quote == 0
    then (if opens c then c else 0, false)
    else (if c == quote then 0 else quote, false)
mode_after quote c (d ∷ s) =
    if quote == 0
    then (if opens c then c else 0, false)
    else if c == b'\\'
    then (quote, true)
    else (if c == quote then 0 else quote, false)

-- the question marks outside the literals, and those inside
unfoldable pub visible : ℕ → Bool → Str → ℕ
visible quote escaped [] = 0
visible quote true (c ∷ s) = visible quote false s
visible quote false (c ∷ s) =
    let m = mode_after quote c s in (if quote == 0 && c == b'?' then 1 else 0) + visible m.0 m.1 s

unfoldable pub hidden : ℕ → Bool → Str → ℕ
hidden quote escaped [] = 0
hidden quote true (c ∷ s) = (if c == b'?' then 1 else 0) + hidden quote false s
hidden quote false (c ∷ s) =
    let m = mode_after quote c s in
    (if not (quote == 0) && c == b'?' then 1 else 0) + hidden m.0 m.1 s
