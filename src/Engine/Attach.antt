-- ===== src/Engine/Attach.antt =====
-- internal/engine/duckdb.go: `attachSnapshot`, `attachedTables`, and the calls that loading makes.
pub mod Quoted
use spoofdb.Base.{
  ℕ, zero, suc, Bool, true, false, List, [], ◌∷◌, ◌++◌, map, Option, none, some, ◌⊎◌, inl, inr,
  length, if◌then◌else◌,
}
use spoofdb.Text.{Str, codes, Unicode, same, join, replace_char}
use spoofdb.Text.Dict.{lookup}
use spoofdb.Text.Paths.{trim_suffix}
use spoofdb.Sort.{sort_strings}
use spoofdb.Value.{Value}
use spoofdb.Value.Print.{Formats}
use spoofdb.Engine.Types.{ch_to_duck_type, normalize_for_duck}
use spoofdb.Engine.Sources.{
  EngineSource, Loader, LoadError, empty_dsn, unknown_type, extension_failed, attach_failed,
  list_failed, rows_failed, parse_dsn_failed, connect_failed, source_failed, copy_failed,
  quote_ident, escape_sql, file_table, claim, onward, register, load_dir, snapshot_all,
  attached_tables,
}

-- what `rows.Next` and `rows.Scan` give of a query, and the error of the loop over them
pub record Listing (A : Type 0) : Type 0 where
  pub items : List A
  pub last_err : Option Str

-- The calls of the database and of the file system: `sql.Open`, `Exec`, the query of
-- `attachedTables` for an alias, `Prepare`, `Exec` of what is prepared, `Close`; `os.ReadDir` and
-- `filepath.Join`. An error is its text.
pub record Duck (Db : Type 0) : Type 0 where
  pub open_file : Str → Db ⊎ Str
  pub exec : Db → Str → Db × Option Str
  pub list_attached : Db → Str → Listing (Str × Str) ⊎ Str
  pub prepare : Db → Str → Option Str
  pub exec_prepared : Db → Str → List Value → Db × Option Str
  pub close : Db → Db
  pub read_dir : Str → List (Str × Bool) ⊎ Str
  pub join_path : Str → Str → Str

-- `if _, err := e.db.Exec(stmt); err != nil { return … }`
unfoldable pub executed :
    {Db : Type 0} → (Str → LoadError) → Loader Db → Db × Option Str → Loader Db × Option LoadError
executed failed l (db, none) = (record l { db = db }, none)
executed failed l (db, some m) = (record l { db = db }, some (failed m))

module _ {Db : Type 0} (d : Duck Db) where
  -- a statement whose error is returned
  unfoldable pub execute : Str → (Str → LoadError) → Loader Db → Loader Db × Option LoadError
  unfolding executed
  execute stmt failed l = executed failed l (d.exec l.db stmt)

  -- `e.db.Exec` of a `defer`, whose error is lost
  unfoldable pub deferred : Str → Loader Db × Option LoadError → Loader Db × Option LoadError
  deferred stmt (l, err) = (record l { db = (d.exec l.db stmt).0 }, err)

  -- "_src_" + src.Name
  unfoldable pub alias_of : EngineSource → Str
  alias_of src = codes "_src_" ++ src.name

  unfoldable pub install_stmt : Str → Str
  install_stmt ext = codes "INSTALL " ++ (ext ++ (codes "; LOAD " ++ (ext ++ codes ";")))

  unfoldable pub attach_stmt : Str → Str → Str → Str
  attach_stmt dsn alias attach_type =
      codes "ATTACH '"
      ++ (escape_sql dsn
          ++ (codes "' AS "
              ++ (quote_ident alias ++ (codes " (TYPE " ++ (attach_type ++ codes ", READ_ONLY)")))))

  unfoldable pub detach_stmt : Str → Str
  detach_stmt alias = codes "DETACH " ++ quote_ident alias

  -- `attachSnapshot`: the extension, which is empty for a type that is built in
  unfoldable pub load_extension : Str → Loader Db → Loader Db × Option LoadError
  unfolding execute install_stmt
  load_extension ext l =
      if same ext [] then (l, none) else execute (install_stmt ext) (extension_failed ext) l

  module _ ⦃u : Unicode⦄ where
    -- `attachSnapshot` behind the rows of the listing
    unfoldable pub snapshot_rows :
        EngineSource → List (Str × Str) → Option Str → Loader Db → Loader Db × Option LoadError
    unfolding alias_of attached_tables snapshot_all
    snapshot_rows src items (some m) l = (l, some (rows_failed m))
    snapshot_rows src items none l =
        snapshot_all d.exec src.name (alias_of src) (attached_tables src.tables items) l

    -- `attachSnapshot` from the listing of the tables on
    unfoldable pub snapshot_listed :
        EngineSource → Listing (Str × Str) ⊎ Str → Loader Db → Loader Db × Option LoadError
    unfolding snapshot_rows
    snapshot_listed src (inr m) l = (l, some (list_failed (alias_of src) m))
    snapshot_listed src (inl rows) l = snapshot_rows src rows.items rows.last_err l

    -- `attachSnapshot`
    unfoldable pub attach_snapshot :
        EngineSource → Str → Str → Loader Db → Loader Db × Option LoadError
    unfolding load_extension execute deferred snapshot_listed attach_stmt detach_stmt alias_of
    attach_snapshot src ext attach_type l =
        if same src.dsn []
        then (l, some (empty_dsn src.name))
        else onward (load_extension ext l) (λ l1.
          onward
            (execute (attach_stmt src.dsn (alias_of src) attach_type) (attach_failed src.name) l1)
            (λ l2.
              deferred (detach_stmt (alias_of src))
                (snapshot_listed src (d.list_attached l2.db (alias_of src)) l2)))
