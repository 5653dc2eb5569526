-- ===== src/Tests/Queries.antt =====
-- The engine and the fidelity report.
use spoofdb.Base.{◌≡◌, refl, List, [], ◌∷◌, ◌++◌, map, none, some, inl, arith}
use spoofdb.Base.Int.{pos}
use spoofdb.Text.{Str, codes}
use spoofdb.Value.{int64, bytes, text, Value, failure}
use spoofdb.Engine.Errors.Messages.{IsName, not_found}
use spoofdb.Engine.Run.{
  will_error, log_once, Scan, Answer, refused, scan_failed, settle, buffer, columns_of, normalize,
}
use spoofdb.Engine.Run.Stub.{settle-not_found}
use spoofdb.Engine.Run.Quiet.{IsQuiet, settle_all, settle_all-IsQuiet}
use spoofdb.Engine.Run.Buffer.{scans_of, buffer_rows}
use spoofdb.Fidelity.{new, sorted, entries}
use spoofdb.Fidelity.Count.{NoNuls, add_all, counts_in, occurrences, tally, counts_in-add_all}
use spoofdb.Fidelity.Order.{by_column, sorted_notes}
use spoofdb.Sort.Laws.{IsSorted}
use mathlib.Core.List.{Perm}
use spoofdb.Tests.Fixtures.{no_case, no_formats, engine}

abbrev hint : Str
hint = codes "!\nDid you mean \"pg_tables\"?"

users_IsName : IsName (codes "users")
users_IsName = (cc, (refl, (refl, (refl, (refl, (refl, tt))))))

abbrev syntax_error : Str
syntax_error = codes "Parser Error: syntax error at or near \"FORM\""

settle-not_found_example : settle engine (refused (not_found (codes "users") hint)) ≡ (
  log_once (codes "missing:" ++ codes "users") (will_error (codes "users")) engine,
  failure (not_found (codes "users") hint),
)
settle-not_found_example = settle-not_found engine (codes "users") hint users_IsName

abbrev asked : List Answer
asked = refused (not_found (codes "users") hint) ∷ refused syntax_error ∷ []

settle_all-IsQuiet_example : IsQuiet (settle_all engine asked)
settle_all-IsQuiet_example =
    settle_all-IsQuiet asked engine (record { distinct = tt; counted = refl })

abbrev two_rows : List (List Value)
two_rows = (int64 (pos 1) ∷ bytes (codes "a") ∷ []) ∷ (int64 (pos 2) ∷ text (codes "b") ∷ []) ∷ []

abbrev names : List Str
names = codes "id" ∷ codes "name" ∷ []

buffer_rows_example :
    (buffer
        (record { columns = inl names; types = names; scans = scans_of two_rows; last_err = none })
      ≡ record {
        res = some (record { cols = columns_of names names; rows = map (map normalize) two_rows });
        err = none;
      })
    × ((m : Str) (more : List Scan)
        → buffer (record {
          columns = inl names;
          types = names;
          scans = scans_of two_rows ++ scan_failed m ∷ more;
          last_err = none;
        })
          ≡ failure m)
buffer_rows_example = buffer_rows names names two_rows none

abbrev added : List (Str × Str)
added = (codes "a", codes "x") ∷ (codes "b", codes "x") ∷ (codes "a", codes "x") ∷ []

added-NoNuls : NoNuls added
added-NoNuls = omega arith

counts_in-add_all_example :
    counts_in (codes "a") (codes "x") (add_all added new)
    ≡ tally (occurrences (codes "a") (codes "x") added)
counts_in-add_all_example = counts_in-add_all (codes "a") (codes "x") added added-NoNuls

sorted_notes_example :
    IsSorted by_column (sorted (add_all added new))
    × Perm (sorted (add_all added new)) (entries (add_all added new))
sorted_notes_example = sorted_notes (add_all added new)
