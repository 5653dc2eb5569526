-- ===== src/Tests/Fixtures.antt =====
-- What the tests share: characters and formats, and a database that answers every query.
use spoofdb.Base.{false, List, [], ◌∷◌, ◌++◌, none, some, inl, if◌then◌else◌}
use spoofdb.Base.Int.{pos}
use spoofdb.Text.{Str, codes, Unicode, contains}
use spoofdb.Value.{int64, text}
use spoofdb.Value.Print.{Formats}
use spoofdb.Engine.Run.{Engine, Answer, refused, rows, scanned}
use spoofdb.Engine.Errors.Messages.{not_found}
use spoofdb.Pg.State.{Portal, Session, no_outcome}

-- a table of upper and lower case without entries
instance abbrev pub no_case : Unicode
no_case = record { upper_rune = λ c. c; lower_rune = λ c. c }

-- formats that print and read nothing
instance abbrev pub no_formats : Formats
no_formats = record {
  sprint_float32 = λ f. [];
  sprint_float64 = λ f. [];
  sprint_time = λ t. [];
  sprint_bytes = λ s. s;
  quote_rune = λ c. c ∷ [];
  int64_of_float64 = λ f. pos 0;
  float64_of_float32 = λ f. 0;
  float32_of_float64 = λ f. 0;
  float64_of_int = λ z. 0;
  parse_float = λ s. 0;
  format_float = λ f. [];
  parse_time = λ l s. none;
  format_time = λ l t. [];
  floor_days = λ z. z;
}

-- The state of the database is the list of the queries that it ran. It does not know a table
-- `ghosts`; any other query gives one row.
abbrev pub database : List Str → Str → List Str × Answer
database ran q = (
  ran ++ q ∷ [],
  if contains q (codes "ghosts")
      then refused (not_found (codes "ghosts") (codes "!"))
      else rows (record {
        columns = inl (codes "n" ∷ codes "x" ∷ []);
        types = codes "INTEGER" ∷ codes "DECIMAL(5,2)" ∷ [];
        scans = scanned (int64 (pos 7) ∷ text (codes "1.50") ∷ []) ∷ [];
        last_err = none;
      }),
)

abbrev pub engine : Engine
engine = record { stub = false; logged = []; log = [] }

abbrev pub insert_portal : Portal
insert_portal = record {
  sql = codes "INSERT INTO t VALUES ($1)";
  params = some (codes "it's") ∷ [];
  formats = [];
}

abbrev pub select_portal : Portal
select_portal = record { sql = codes "SELECT * FROM t"; params = []; formats = [] }

abbrev pub session : Session (List Str)
session = record {
  eng = engine;
  db = [];
  stmts = [];
  portals = (codes "i", insert_portal) ∷ (codes "s", select_portal) ∷ [];
  failed = false;
  in_tx = false;
  tx_fail = false;
  last_sql = [];
  last = no_outcome;
  out = [];
}
