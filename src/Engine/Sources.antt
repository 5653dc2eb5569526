-- ===== src/Engine/Sources.antt =====
-- internal/engine/duckdb.go: the tables that an engine has been given: `register`, `loadDir`,
-- `attachedTables`, the loop of `attachSnapshot`, `fileTable` and `quoteIdent`.
pub mod Origins
pub mod Loops
use spoofdb.Base.{
  ℕ, Bool, true, false, not, ◌&&◌, ◌||◌, List, [], ◌∷◌, ◌++◌, map, Option, none, some, ◌⊎◌, inl,
  inr, ◌==◌, if◌then◌else◌,
}
use spoofdb.Text.{Str, codes, Unicode, same, one_of, contains, replace_char, to_lower}
use spoofdb.Text.Dict.{lookup, put}
use spoofdb.Text.Paths.{ext, base_name, trim_suffix}

-- `quoteIdent`
unfoldable pub quote_ident : Str → Str
quote_ident name = b'"' ∷ (replace_char b'"' (codes "\"\"") name ++ b'"' ∷ [])

-- `escapeSQL`
unfoldable pub escape_sql : Str → Str
escape_sql s = replace_char b'\'' (codes "''") s

-- `fileTable`
unfoldable pub file_table : Str → Str
file_table path = trim_suffix (base_name path) (ext (base_name path))

-- `engine.Source`
pub record EngineSource : Type 0 where
  pub name : Str
  pub type : Str
  pub path : Str
  pub dsn : Str
  pub tables : List Str

-- the part of an `Engine` that loading changes, with the database and the lines that are logged: a
-- table that is skipped, its origin and the origin of the table that has the name
pub record Loader (Db : Type 0) : Type 0 where
  pub db : Db
  pub seen : List (Str × Str)
  pub tables : List Str
  pub skipped : List (Str × Str × Str)

-- the errors of loading, each with what its message shows
pub data LoadError : Type 0 where
  read_dir_failed : Str → Str → LoadError
  register_failed : Str → Str → LoadError
  snapshot_failed : Str → Str → Str → LoadError
  empty_dsn : Str → LoadError
  unknown_type : Str → Str → LoadError
  extension_failed : Str → Str → LoadError
  attach_failed : Str → Str → LoadError
  list_failed : Str → Str → LoadError
  rows_failed : Str → LoadError
  parse_dsn_failed : Str → Str → LoadError
  connect_failed : Str → Str → LoadError
  source_failed : Str → Str → LoadError
  copy_failed : Str → Str → Str → LoadError

-- what a statement that makes a table leaves: its error, or the table with its origin
unfoldable pub claimed :
    {Db : Type 0}
    → Str
    → Str
    → (Str → LoadError)
    → Loader Db
    → Db × Option Str
    → Loader Db × Option LoadError
claimed table origin failed l (db, some m) = (record l { db = db }, some (failed m))
claimed table origin failed l (db, none) =
    (record l { db = db; seen = put table origin l.seen; tables = l.tables ++ table ∷ [] }, none)

-- a table that another source has is skipped; any other is made by `run`
unfoldable pub claim :
    {Db : Type 0}
    → Str
    → (Db → Db × Option Str)
    → Str
    → (Str → LoadError)
    → Option Str
    → Loader Db
    → Loader Db × Option LoadError
unfolding claimed
claim table run origin failed (some prev) l =
    (record l { skipped = l.skipped ++ (table, prev, origin) ∷ [] }, none)
claim table run origin failed none l = claimed table origin failed l (run l.db)

-- `if err != nil { return err }` in a loop
abbrev pub onward :
    {Db : Type 0}
    → Loader Db × Option LoadError
    → (Loader Db → Loader Db × Option LoadError)
    → Loader Db × Option LoadError
onward (l, some e) next = (l, some e)
onward (l, none) next = next l

-- the statement of `register`
unfoldable pub view_stmt : Str → Str → Str
view_stmt table reader =
    codes "CREATE OR REPLACE VIEW " ++ (quote_ident table ++ (codes " AS SELECT * FROM " ++ reader))

-- the statement of `attachSnapshot` for a table
unfoldable pub snapshot_stmt : Str → Str → Str → Str
snapshot_stmt alias schema name =
    codes "CREATE OR REPLACE TABLE "
    ++ (quote_ident name
        ++ (codes " AS SELECT * FROM "
            ++ (quote_ident alias ++ b'.' ∷ (quote_ident schema ++ b'.' ∷ quote_ident name))))

-- `exec` is the `Exec` of the database: `none` if there is no error
module _ {Db : Type 0} (exec : Db → Str → Db × Option Str) where
  -- `register`
  unfoldable pub register : Str → Str → Str → Loader Db → Loader Db × Option LoadError
  unfolding claim
  register table reader origin l =
      claim table (λ db. exec db (view_stmt table reader)) origin (register_failed table)
        (lookup table l.seen) l

  module _ ⦃u : Unicode⦄ (join_path : Str → Str → Str) where
    -- the table function for a file, by its extension
    unfoldable pub reader_of : Str → Str → Option Str
    unfolding escape_sql
    reader_of name path =
        if same (to_lower (ext name)) (codes ".parquet")
        then some (codes "read_parquet('" ++ (escape_sql path ++ codes "')"))
        else if same (to_lower (ext name)) (codes ".csv")
        then some (codes "read_csv_auto('" ++ (escape_sql path ++ codes "')"))
        else none

    abbrev pub load_file : Str → Str → Option Str → Loader Db → Loader Db × Option LoadError
    load_file name path none l = (l, none)
    load_file name path (some reader) l = register (file_table name) reader path l

    -- one entry of the directory, with whether it is a directory
    unfoldable pub load_entry : Str → Str × Bool → Loader Db → Loader Db × Option LoadError
    unfolding register reader_of
    load_entry dir (name, is_dir) l =
        if is_dir
        then (l, none)
        else load_file name (join_path dir name) (reader_of name (join_path dir name)) l

    unfoldable pub load_entries : Str → List (Str × Bool) → Loader Db → Loader Db × Option LoadError
    unfolding load_entry
    load_entries dir [] l = (l, none)
    load_entries dir (e ∷ es) l = onward (load_entry dir e l) (λ l'. load_entries dir es l')

    -- `loadDir`, with what `os.ReadDir` gives: the entries or an error
    unfoldable pub load_dir :
        Str → List (Str × Bool) ⊎ Str → Loader Db → Loader Db × Option LoadError
    unfolding load_entries
    load_dir dir (inl entries) l = load_entries dir entries l
    load_dir dir (inr m) l = (l, some (read_dir_failed dir m))

  -- one table of `attachSnapshot`; a table is its schema and its name
  unfoldable pub snapshot_one : Str → Str → Str × Str → Loader Db → Loader Db × Option LoadError
  unfolding claim
  snapshot_one source alias (schema, name) l =
      claim name (λ db. exec db (snapshot_stmt alias schema name)) source
        (snapshot_failed name source) (lookup name l.seen) l

  -- the loop of `attachSnapshot`
  unfoldable pub snapshot_all :
      Str → Str → List (Str × Str) → Loader Db → Loader Db × Option LoadError
  unfolding snapshot_one
  snapshot_all source alias [] l = (l, none)
  snapshot_all source alias (t ∷ ts) l =
      onward (snapshot_one source alias t l) (λ l'. snapshot_all source alias ts l')

module _ ⦃u : Unicode⦄ where
  -- is a table among those that the source allows? an empty list allows all
  abbrev allowed : List Str → Str × Str → Bool
  allowed [] t = true
  allowed (a ∷ allow) (schema, name) =
      one_of (to_lower name) (map to_lower (a ∷ allow))
      || one_of (to_lower (schema ++ b'.' ∷ name)) (map to_lower (a ∷ allow))

  -- `attachedTables`, over the rows that the database gives
  unfoldable pub attached_tables : List Str → List (Str × Str) → List (Str × Str)
  attached_tables allow [] = []
  attached_tables allow (t ∷ ts) =
      let rest = attached_tables allow ts in if allowed allow t then t ∷ rest else rest
