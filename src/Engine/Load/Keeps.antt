-- ===== src/Engine/Load/Keeps.antt =====
-- What each claim of a table keeps, whatever the database is, all of the loading keeps.
use spoofdb.Base.{Bool-cases, List, [], ◌∷◌, Option, none, some, ◌⊎◌, inl, inr}
use spoofdb.Text.{Str, codes, Unicode, same}
use spoofdb.Value.Print.{Formats}
use spoofdb.Engine.Sources.{EngineSource, Loader, register, snapshot_one, attached_tables}
use spoofdb.Engine.Sources.Loops.{onward_keeps, snapshot_all_keeps, load_dir_keeps}
use spoofdb.Engine.Attach.{Duck, Listing, alias_of, snapshot_rows, snapshot_listed, attach_snapshot}
use spoofdb.Engine.Pull.{
  Remote, pull_one, pull_all, clickhouse_tables, pull_tables, pull_opened, pull_from,
  clickhouse_pull,
}
use spoofdb.Engine.Load.{
  SourceType, type_dir, type_parquet, type_csv, type_postgres, type_mysql, type_clickhouse,
  type_unknown, source_type, load_as, load, load_all,
}

module _ {Db Conn : Type 0} (d : Duck Db) (r : Remote Conn) ⦃u : Unicode⦄ ⦃fm : Formats⦄
    (P : Loader Db → Type 0) where
  snapshot_rows_keeps :
      (src : EngineSource)
      (step : (t : Str × Str) (l : Loader Db)
        → P l
        → P (snapshot_one d.exec src.name (alias_of d src) t l).0)
      (items : List (Str × Str)) (o : Option Str) (l : Loader Db)
      → P l
      → P (snapshot_rows d src items o l).0
  unfolding snapshot_rows
  snapshot_rows_keeps src step items (some m) l h = h
  snapshot_rows_keeps src step items none l h =
      snapshot_all_keeps P d.exec src.name (alias_of d src) step (attached_tables src.tables items)
        l h

  pub snapshot_listed_keeps :
      (src : EngineSource)
      (step : (t : Str × Str) (l : Loader Db)
        → P l
        → P (snapshot_one d.exec src.name (alias_of d src) t l).0)
      (rows : Listing (Str × Str) ⊎ Str) (l : Loader Db)
      → P l
      → P (snapshot_listed d src rows l).0
  unfolding snapshot_listed
  snapshot_listed_keeps src step (inr m) l h = h
  snapshot_listed_keeps src step (inl rows) l h =
      snapshot_rows_keeps src step rows.items rows.last_err l h

  module _
      (pulled : (source : Str) (conn : Conn) (table : Str) (l : Loader Db)
        → P l
        → P (pull_one d r source conn table l).0) where
    pull_all_keeps :
        (source : Str) (conn : Conn) (ts : List Str) (l : Loader Db)
        → P l
        → P (pull_all d r source conn ts l).0
    unfolding pull_all
    pull_all_keeps source conn [] l h = h
    pull_all_keeps source conn (t ∷ ts) l h =
        onward_keeps P (pull_one d r source conn t l) (λ l'. pull_all d r source conn ts l')
          (pulled source conn t l h) (λ l' h'. pull_all_keeps source conn ts l' h')

    pull_tables_keeps :
        (src : EngineSource) (conn : Conn) (ts : List Str ⊎ Str) (l : Loader Db)
        → P l
        → P (pull_tables d r src conn ts l).0
    unfolding pull_tables
    pull_tables_keeps src conn (inl ts) l h = pull_all_keeps src.name conn ts l h
    pull_tables_keeps src conn (inr m) l h = h

    pull_from_keeps :
        (src : EngineSource) (conn : Conn) (o : Option Str) (l : Loader Db)
        → P l
        → P (pull_from d r src conn o l).0
    unfolding pull_from
    pull_from_keeps src conn (some m) l h = h
    pull_from_keeps src conn none l h =
        pull_tables_keeps src conn (clickhouse_tables d r conn src.tables) l h

    pull_opened_keeps :
        (src : EngineSource) (o : Conn ⊎ Str) (l : Loader Db) → P l → P (pull_opened d r src o l).0
    unfolding pull_opened
    pull_opened_keeps src (inl conn) l h = pull_from_keeps src conn (r.ping conn) l h
    pull_opened_keeps src (inr m) l h = h

    clickhouse_pull_keeps :
        (src : EngineSource) (l : Loader Db) → P l → P (clickhouse_pull d r src l).0
    unfolding clickhouse_pull
    clickhouse_pull_keeps src l h = elim (Bool-cases (same src.dsn [])) [
      | inl q ↦ rw (q, clickhouse_pull) h
      | inr q ↦ rw (q, clickhouse_pull) (pull_opened_keeps src (r.open_db src.dsn) l h)
    ]

    module _
        (registered : (table reader origin : Str) (l : Loader Db)
          → P l
          → P (register d.exec table reader origin l).0)
        (attached : (src : EngineSource) (ext attach_type : Str) (l : Loader Db)
          → P l
          → P (attach_snapshot d src ext attach_type l).0) where
      load_as_keeps :
          (t : SourceType) (src : EngineSource) (l : Loader Db) → P l → P (load_as d r t src l).0
      unfolding load_as
      load_as_keeps type_dir src l h =
          load_dir_keeps P d.exec d.join_path registered src.path (d.read_dir src.path) l h
      load_as_keeps type_parquet src l h = registered _ _ src.path l h
      load_as_keeps type_csv src l h = registered _ _ src.path l h
      load_as_keeps type_postgres src l h = attached src (codes "postgres") (codes "postgres") l h
      load_as_keeps type_mysql src l h = attached src (codes "mysql") (codes "mysql") l h
      load_as_keeps type_clickhouse src l h = clickhouse_pull_keeps src l h
      load_as_keeps type_unknown src l h = h

      pub load_all_keeps :
          (sources : List EngineSource) (l : Loader Db) → P l → P (load_all d r sources l).0
      unfolding load_all load
      load_all_keeps [] l h = h
      load_all_keeps (s ∷ ss) l h =
          onward_keeps P (load d r s l) (λ l'. load_all d r ss l')
            (load_as_keeps (source_type s.type) s l h) (λ l' h'. load_all_keeps ss l' h')
