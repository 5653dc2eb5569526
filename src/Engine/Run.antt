-- ===== src/Engine/Run.antt =====
-- internal/engine/duckdb.go: `Engine` (its fields for stub mode), `SetStubMissing`, `logOnce` and
-- `runOn`, with `Run` and `RunConn`, which call it on a pool or on a pinned connection.
use spoofdb.Base.{
  ℕ, Bool, true, false, List, [], ◌∷◌, ◌++◌, map, Option, none, some, ◌⊎◌, inl, inr, if◌then◌else◌,
}
use spoofdb.Text.{Str, codes, Unicode, one_of}
use spoofdb.Value.{
  Value, null, bytes, text, Column, QueryResult, Outcome, empty_result, success, failure,
}
use spoofdb.Engine.Errors.{
  ErrClass, app, missing_relation, dialect_gap, classify_err, missing_relation_name, first_line,
}
pub mod Stub
pub mod Quiet
pub mod Buffer
pub mod Square

-- The lines that the engine logs, with what each one prints.
pub data LogLine : Type 0 where
  serving_empty : Str → LogLine
  will_error : Str → LogLine
  fidelity_gap : Str → LogLine

pub record Engine : Type 0 where
  pub stub : Bool
  pub logged : List Str
  pub log : List LogLine

-- `SetStubMissing`
unfoldable pub set_stub_missing : Bool → Engine → Engine
set_stub_missing on e = record e { stub = on }

-- `logOnce`
unfoldable pub log_once : Str → LogLine → Engine → Engine
unfolding one_of
log_once key line e =
    if one_of key e.logged
    then e
    else record e { logged = key ∷ e.logged; log = e.log ++ line ∷ [] }

-- what `rows.Next` and `rows.Scan` give for one row
pub data Scan : Type 0 where
  scanned : List Value → Scan
  scan_failed : Str → Scan

-- What the driver answers to `QueryContext`: an error, or rows. `columns` is what `rows.Columns`
-- returns, `types` the names of `rows.ColumnTypes` (none on its error, which is ignored).
pub record Rows : Type 0 where
  pub columns : List Str ⊎ Str
  pub types : List Str
  pub scans : List Scan
  pub last_err : Option Str

pub data Answer : Type 0 where
  refused : Str → Answer
  rows : Rows → Answer

-- one column for each name; a missing type is the empty text
unfoldable pub columns_of : List Str → List Str → List Column
columns_of [] types = []
columns_of (n ∷ ns) [] = record { name = n; type = [] } ∷ columns_of ns []
columns_of (n ∷ ns) (t ∷ ts) = record { name = n; type = t } ∷ columns_of ns ts

-- byte slices become strings
unfoldable pub normalize : Value → Value
normalize (bytes s) = text s
normalize v = v

-- the loop over `rows.Next`
unfoldable pub fetch : List Column → List (List Value) → List Scan → Option Str → Outcome
unfolding normalize
fetch cols done [] last = record { res = some (record { cols = cols; rows = done }); err = last }
fetch cols done (scanned vals ∷ more) last = fetch cols (done ++ map normalize vals ∷ []) more last
fetch cols done (scan_failed m ∷ more) last = failure m

-- the part of `runOn` behind a query that did not fail
unfoldable pub buffer : Rows → Outcome
unfolding fetch columns_of
buffer r = elim r.columns [
  | inr m ↦ failure m
  | inl names ↦ fetch (columns_of names r.types) [] r.scans r.last_err
]

module _ ⦃u : Unicode⦄ where
  -- the part of `runOn` for a query that failed, by the class of the error
  unfoldable pub recover : Engine → Str → ErrClass → Engine × Outcome
  unfolding log_once
  recover e m missing_relation =
      let name = missing_relation_name (some m) in
      let key = codes "missing:" ++ name in
      if e.stub
      then (log_once key (serving_empty name) e, success empty_result)
      else (log_once key (will_error name) e, failure m)
  recover e m dialect_gap =
      if e.stub
      then (log_once m (fidelity_gap (first_line m)) e, success empty_result)
      else (e, failure m)
  recover e m app = (e, failure m)

  unfoldable pub settle : Engine → Answer → Engine × Outcome
  unfolding recover buffer
  settle e (refused m) = recover e m (classify_err (some m))
  settle e (rows r) = (e, buffer r)

  -- `runOn`, on a database whose states are `Db`; `query_context` is the driver's
  unfoldable pub run_on :
      {Db : Type 0} → (Db → Str → Db × Answer) → Engine → Db → Str → Engine × Db × Outcome
  unfolding settle
  run_on query_context e db query =
      let (db', answer) = query_context db query in
      let (e', outcome) = settle e answer in (e', db', outcome)
