-- ===== src/Tests/Databases.antt =====
-- A database that can attach one source, under one alias, and makes every table.
use spoofdb.Base.{Bool, true, false, List, [], ◌∷◌, ◌++◌, Option, none, some, inl}
use spoofdb.Text.{Str, codes, same, has_prefix}
use spoofdb.Value.{int64}
use spoofdb.Base.Int.{pos}
use spoofdb.Engine.Sources.{EngineSource}
use spoofdb.Engine.Attach.{Duck}
use spoofdb.Engine.Pull.{Remote}

-- the statements that ran, and whether the source is attached
pub record Base : Type 0 where
  pub ran : List Str
  pub on : Bool

abbrev pg_alias : Str
pg_alias = codes "_src_pg"

-- by whether the statement attaches the source, detaches it, or attaches at all
abbrev step : Bool → Bool → Bool → Bool → Str → Base → Base × Option Str
step true off att true stmt b = (b, some (codes "already attached"))
step true off att false stmt b = (record { ran = b.ran ++ stmt ∷ []; on = true }, none)
step false true att on stmt b = (record { ran = b.ran ++ stmt ∷ []; on = false }, none)
step false false true on stmt b = (b, some (codes "no such database"))
step false false false on stmt b = (record b { ran = b.ran ++ stmt ∷ [] }, none)

abbrev pg_attach : Str
pg_attach = codes "ATTACH 'dsn' AS \"_src_pg\" (TYPE postgres, READ_ONLY)"

abbrev pg_detach : Str
pg_detach = codes "DETACH \"_src_pg\""

unfoldable pub run : Base → Str → Base × Option Str
unfolding has_prefix
run b stmt =
    step (same stmt pg_attach) (same stmt pg_detach) (has_prefix stmt (codes "ATTACH")) b.on stmt b

abbrev pub duck : Duck Base
duck = record {
  open_file = λ path. inl (record { ran = []; on = false });
  exec = run;
  list_attached =
      λ b alias. inl (record { items = (codes "public", codes "orders") ∷ []; last_err = none });
  prepare = λ b stmt. none;
  exec_prepared = λ b stmt vals. (record b { ran = b.ran ++ stmt ∷ [] }, none);
  close = λ b. b;
  read_dir = λ dir. inl ((codes "orders.csv", false) ∷ []);
  join_path = λ dir name. dir ++ b'/' ∷ name;
}

-- a ClickHouse server with two tables, of which each has a row
abbrev pub remote : Remote Str
remote = record {
  open_db = λ dsn. inl dsn;
  ping = λ conn. none;
  list_names =
      λ conn. inl (record { items = codes "events" ∷ codes "orders" ∷ []; last_err = none });
  query = λ conn q. inl (record {
    columns = inl ((codes "id", codes "UInt64") ∷ []);
    rows = record { items = (int64 (pos 7) ∷ []) ∷ []; last_err = none };
  });
}

abbrev pub pg_source : EngineSource
pg_source = record {
  name = codes "pg";
  type = codes "postgres";
  path = [];
  dsn = codes "dsn";
  tables = [];
}

abbrev pub ch_source : EngineSource
ch_source = record {
  name = codes "ch";
  type = codes "clickhouse";
  path = [];
  dsn = codes "clickhouse://host";
  tables = [];
}
