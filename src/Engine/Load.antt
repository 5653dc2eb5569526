-- ===== src/Engine/Load.antt =====
-- internal/engine/duckdb.go: `load` and `NewFromSourcesAt`.
pub mod Keeps
pub mod First
use spoofdb.Base.{
  ℕ, zero, suc, Bool, true, false, List, [], ◌∷◌, ◌++◌, map, Option, none, some, ◌⊎◌, inl, inr,
  length, if◌then◌else◌,
}
use spoofdb.Text.{Str, codes, Unicode, same, join, replace_char}
use spoofdb.Text.Dict.{lookup}
use spoofdb.Text.Paths.{trim_suffix}
use spoofdb.Sort.{sort_strings}
use spoofdb.Value.{Value}
use spoofdb.Value.Print.{Formats}
use spoofdb.Engine.Attach.{Duck, attach_snapshot}
use spoofdb.Engine.Pull.{Remote, clickhouse_pull}
use spoofdb.Engine.Sources.{
  EngineSource, Loader, LoadError, empty_dsn, unknown_type, extension_failed, attach_failed,
  list_failed, rows_failed, parse_dsn_failed, connect_failed, source_failed, copy_failed,
  quote_ident, escape_sql, file_table, claim, onward, register, load_dir, snapshot_all,
  attached_tables,
}

-- what `NewFromSourcesAt` returns: an error of `sql.Open`; the error of a source, with the database,
-- which is closed; or what it has loaded
pub data Loaded (Db : Type 0) : Type 0 where
  not_opened : Str → Loaded Db
  not_loaded : Db → LoadError → Loaded Db
  loaded : Loader Db → Loaded Db

-- the cases of the `switch` of `load`
pub data SourceType : Type 0 where
  type_dir type_parquet type_csv : SourceType
  type_postgres type_mysql type_clickhouse type_unknown : SourceType

unfoldable pub source_type : Str → SourceType
source_type t =
    if same t (codes "dir")
    then type_dir
    else if same t (codes "parquet")
    then type_parquet
    else if same t (codes "csv")
    then type_csv
    else if same t (codes "postgres")
    then type_postgres
    else if same t (codes "mysql")
    then type_mysql
    else if same t (codes "clickhouse")
    then type_clickhouse
    else type_unknown

-- an engine without tables
unfoldable pub fresh : {Db : Type 0} → Db → Loader Db
fresh db = record { db = db; seen = []; tables = []; skipped = [] }

module _ {Db Conn : Type 0} (d : Duck Db) (r : Remote Conn) ⦃u : Unicode⦄ ⦃fm : Formats⦄ where
  -- a case of the `switch` of `load`
  unfoldable pub load_as : SourceType → EngineSource → Loader Db → Loader Db × Option LoadError
  unfolding register load_dir attach_snapshot clickhouse_pull
  load_as type_dir src l = load_dir d.exec d.join_path src.path (d.read_dir src.path) l
  load_as type_parquet src l =
      register d.exec (file_table src.path)
        (codes "read_parquet('" ++ (escape_sql src.path ++ codes "')")) src.path l
  load_as type_csv src l =
      register d.exec (file_table src.path)
        (codes "read_csv_auto('" ++ (escape_sql src.path ++ codes "')")) src.path l
  load_as type_postgres src l = attach_snapshot d src (codes "postgres") (codes "postgres") l
  load_as type_mysql src l = attach_snapshot d src (codes "mysql") (codes "mysql") l
  load_as type_clickhouse src l = clickhouse_pull d r src l
  load_as type_unknown src l = (l, some (unknown_type src.name src.type))

  -- `load`
  unfoldable pub load : EngineSource → Loader Db → Loader Db × Option LoadError
  unfolding load_as source_type
  load src l = load_as (source_type src.type) src l

  -- the loop of `NewFromSourcesAt`
  unfoldable pub load_all : List EngineSource → Loader Db → Loader Db × Option LoadError
  unfolding load
  load_all [] l = (l, none)
  load_all (s ∷ ss) l = onward (load s l) (λ l'. load_all ss l')

  -- `NewFromSourcesAt` behind the loop
  unfoldable pub opened : Loader Db × Option LoadError → Loaded Db
  opened (l, some e) = not_loaded (d.close l.db) e
  opened (l, none) = loaded (record l { tables = sort_strings l.tables })

  -- `NewFromSourcesAt` behind `sql.Open`
  unfoldable pub load_into : List EngineSource → Db ⊎ Str → Loaded Db
  unfolding load_all opened fresh
  load_into sources (inr m) = not_opened m
  load_into sources (inl db) = opened (load_all sources (fresh db))

  -- `NewFromSourcesAt`
  unfoldable pub new_from_sources_at : Str → List EngineSource → Loaded Db
  unfolding load_into
  new_from_sources_at path sources = load_into sources (d.open_file path)

  -- `NewFromSources`
  unfoldable pub new_from_sources : List EngineSource → Loaded Db
  unfolding new_from_sources_at
  new_from_sources sources = new_from_sources_at [] sources

  -- `New`
  unfoldable pub new_engine : Str → Loaded Db
  unfolding new_from_sources
  new_engine data_dir = new_from_sources (
      record { name = codes "data"; type = codes "dir"; path = data_dir; dsn = []; tables = [] }
      ∷ [])
