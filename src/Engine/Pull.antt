-- ===== src/Engine/Pull.antt =====
-- internal/engine/source_clickhouse.go: `clickhousePull`, `clickhouseTables` and
-- `copyClickhouseTable`.
use spoofdb.Base.{
  ℕ, zero, suc, List, [], ◌∷◌, ◌++◌, map, Option, none, some, ◌⊎◌, inl, inr, length, if◌then◌else◌,
}
use spoofdb.Text.{Str, codes, Unicode, same, join, replace_char}
use spoofdb.Text.Dict.{lookup}
use spoofdb.Text.Paths.{trim_suffix}
use spoofdb.Value.{Value}
use spoofdb.Value.Print.{Formats}
use spoofdb.Engine.Attach.{Duck, Listing}
use spoofdb.Engine.Types.{ch_to_duck_type, normalize_for_duck}
use spoofdb.Engine.Sources.{
  EngineSource, Loader, LoadError, empty_dsn, parse_dsn_failed, connect_failed, source_failed,
  copy_failed, quote_ident, claim, onward,
}

-- a table of ClickHouse: what `rows.Columns` and `rows.ColumnTypes` give, and its rows
pub record RemoteTable : Type 0 where
  pub columns : List (Str × Str) ⊎ Str
  pub rows : Listing (List Value)

-- The calls of clickhouse-go, on connections `Conn`: `ParseDSN` with `OpenDB`, `Ping`, the query of
-- `clickhouseTables`, and the query of `copyClickhouseTable`.
pub record Remote (Conn : Type 0) : Type 0 where
  pub open_db : Str → Conn ⊎ Str
  pub ping : Conn → Option Str
  pub list_names : Conn → Listing Str ⊎ Str
  pub query : Conn → Str → RemoteTable ⊎ Str

-- "?,?,?", for as many columns
unfoldable pub question_marks : ℕ → Str
question_marks zero = []
question_marks (suc n) = b'?' ∷ b',' ∷ question_marks n

-- the columns of the new table
unfoldable pub column_defs : ⦃u : Unicode⦄ → List (Str × Str) → List Str
unfolding quote_ident ch_to_duck_type
column_defs [] = []
column_defs ((name, type) ∷ cols) =
    (quote_ident name ++ b' ' ∷ ch_to_duck_type type) ∷ column_defs cols

unfoldable pub create_stmt : ⦃u : Unicode⦄ → Str → List (Str × Str) → Str
unfolding column_defs
create_stmt table cols =
    codes "CREATE OR REPLACE TABLE "
    ++ (quote_ident table ++ (codes " (" ++ (join (codes ", ") (column_defs cols) ++ codes ")")))

unfoldable pub insert_stmt : Str → ℕ → Str
unfolding question_marks
insert_stmt table n =
    codes "INSERT INTO "
    ++ (quote_ident table
        ++ (codes " VALUES (" ++ (trim_suffix (question_marks n) (codes ",") ++ codes ")")))

unfoldable pub select_stmt : Str → Str
select_stmt table = codes "SELECT * FROM `" ++ (replace_char b'`' (codes "``") table ++ codes "`")

-- an error of a statement, with text before it, or what follows
abbrev pub unless_failed :
    {Db : Type 0} → Str → Db × Option Str → (Db → Db × Option Str) → Db × Option Str
unless_failed before (db, some m) next = (db, some (before ++ m))
unless_failed before (db, none) next = next db

module _ {Db Conn : Type 0} (d : Duck Db) (r : Remote Conn) where
  module _ ⦃u : Unicode⦄ ⦃fm : Formats⦄ where
    -- the loop of `copyClickhouseTable`, with the error behind it
    unfoldable pub copy_rows : Str → List (List Value) → Option Str → Db → Db × Option Str
    unfolding normalize_for_duck
    copy_rows stmt [] last db = (db, last)
    copy_rows stmt (row ∷ rows) last db =
        unless_failed (codes "insert row: ") (d.exec_prepared db stmt (map normalize_for_duck row))
          (λ db'. copy_rows stmt rows last db')

    -- `copyClickhouseTable` behind the new table
    unfoldable pub insert_rows : Str → ℕ → Listing (List Value) → Db → Db × Option Str
    unfolding copy_rows insert_stmt
    insert_rows table n rows db =
        unless_failed (codes "prepare insert: ") (db, d.prepare db (insert_stmt table n))
          (λ db'. copy_rows (insert_stmt table n) rows.items rows.last_err db')

    -- `copyClickhouseTable` behind the columns
    unfoldable pub copy_columns :
        Str → List (Str × Str) ⊎ Str → Listing (List Value) → Db → Db × Option Str
    unfolding insert_rows create_stmt
    copy_columns table (inr m) rows db = (db, some m)
    copy_columns table (inl cols) rows db =
        unless_failed (codes "create table: ") (d.exec db (create_stmt table cols))
          (λ db'. insert_rows table (length cols) rows db')

    -- `copyClickhouseTable` behind its query
    unfoldable pub copy_answer : Str → RemoteTable ⊎ Str → Db → Db × Option Str
    unfolding copy_columns
    copy_answer table (inr m) db = (db, some m)
    copy_answer table (inl t) db = copy_columns table t.columns t.rows db

    -- `copyClickhouseTable`
    unfoldable pub copy_table : Conn → Str → Db → Db × Option Str
    unfolding copy_answer select_stmt
    copy_table conn table db = copy_answer table (r.query conn (select_stmt table)) db

    -- one table of `clickhousePull`
    unfoldable pub pull_one : Str → Conn → Str → Loader Db → Loader Db × Option LoadError
    unfolding copy_table
    pull_one source conn table l =
        claim table (copy_table conn table) source (copy_failed source table) (lookup table l.seen)
          l

    -- the loop of `clickhousePull`
    unfoldable pub pull_all : Str → Conn → List Str → Loader Db → Loader Db × Option LoadError
    unfolding pull_one
    pull_all source conn [] l = (l, none)
    pull_all source conn (t ∷ ts) l =
        onward (pull_one source conn t l) (λ l'. pull_all source conn ts l')

    -- `clickhouseTables` where there is no list of tables
    unfoldable pub listed_names : Listing Str ⊎ Str → List Str ⊎ Str
    listed_names (inr m) = inr (codes "list clickhouse tables: " ++ m)
    listed_names (inl names) = elim names.last_err [ none ↦ inl names.items | some m ↦ inr m ]

    -- `clickhouseTables`
    unfoldable pub clickhouse_tables : Conn → List Str → List Str ⊎ Str
    unfolding listed_names
    clickhouse_tables conn [] = listed_names (r.list_names conn)
    clickhouse_tables conn (a ∷ allow) = inl (a ∷ allow)

    -- `clickhousePull` behind the list of tables
    unfoldable pub pull_tables :
        EngineSource → Conn → List Str ⊎ Str → Loader Db → Loader Db × Option LoadError
    unfolding pull_all
    pull_tables src conn (inr m) l = (l, some (source_failed src.name m))
    pull_tables src conn (inl tables) l = pull_all src.name conn tables l

    -- `clickhousePull` behind `Ping`
    unfoldable pub pull_from :
        EngineSource → Conn → Option Str → Loader Db → Loader Db × Option LoadError
    unfolding pull_tables clickhouse_tables
    pull_from src conn (some m) l = (l, some (connect_failed src.name m))
    pull_from src conn none l = pull_tables src conn (clickhouse_tables conn src.tables) l

    -- `clickhousePull` behind `ParseDSN`
    unfoldable pub pull_opened :
        EngineSource → Conn ⊎ Str → Loader Db → Loader Db × Option LoadError
    unfolding pull_from
    pull_opened src (inr m) l = (l, some (parse_dsn_failed src.name m))
    pull_opened src (inl conn) l = pull_from src conn (r.ping conn) l

    -- `clickhousePull`
    unfoldable pub clickhouse_pull : EngineSource → Loader Db → Loader Db × Option LoadError
    unfolding pull_opened
    clickhouse_pull src l =
        if same src.dsn []
        then (l, some (empty_dsn src.name))
        else pull_opened src (r.open_db src.dsn) l
