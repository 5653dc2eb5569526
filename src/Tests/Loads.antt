-- ===== src/Tests/Loads.antt =====
-- Loading sources with one table in common.
use spoofdb.Text.Paths.{trim_suffix, base_name, ext}
use spoofdb.Base.{◌≡◌, refl, false, [], ◌∷◌, some}
use spoofdb.Text.{codes, same, replace_char}
use spoofdb.Text.Dict.{lookup, put}
use spoofdb.Engine.Sources.{file_table, snapshot_stmt}
use spoofdb.Engine.Attach.Quoted.{attach_stmt-injective}
use spoofdb.Engine.Load.{fresh, load_all, new_from_sources_at}
use spoofdb.Engine.Load.First.{
  IsReturned, HasTables, lookup-load_all-append, new_from_sources_at-HasTables,
}
use spoofdb.Tests.Databases.{Base, duck, remote, pg_source, ch_source, run}
use spoofdb.Tests.Fixtures.{no_case, no_formats}

file_table_test : file_table (codes "data/users.parquet") ≡ codes "users"
unfolding file_table trim_suffix base_name ext
file_table_test = refl

abbrev new_base : Base
new_base = record { ran = []; on = false }

-- the tables `orders` of both and `events` of the second
tables_test :
    (load_all duck remote (pg_source ∷ ch_source ∷ []) (fresh new_base)).0.tables
    ≡ codes "orders" ∷ codes "events" ∷ []
unfolding load_all same run replace_char fresh lookup snapshot_stmt put
tables_test = refl

first_test :
    lookup (codes "orders") (load_all duck remote (pg_source ∷ []) (fresh new_base)).0.seen
    ≡ some (codes "pg")
unfolding load_all lookup run replace_char fresh snapshot_stmt put
first_test = refl

lookup-load_all-append_example :
    lookup
      (codes "orders")
      (load_all duck remote (pg_source ∷ ch_source ∷ []) (fresh new_base)).0.seen
    ≡ some (codes "pg")
lookup-load_all-append_example =
    lookup-load_all-append duck remote (pg_source ∷ []) (ch_source ∷ []) (fresh new_base)
      (codes "orders") (codes "pg") first_test

new_from_sources_at-HasTables_example :
    IsReturned HasTables (new_from_sources_at duck remote [] (pg_source ∷ ch_source ∷ []))
new_from_sources_at-HasTables_example =
    new_from_sources_at-HasTables duck remote [] (pg_source ∷ ch_source ∷ [])

attach_stmt-injective_example : (codes "it's" ≡ codes "it's") × (codes "a\"b" ≡ codes "a\"b")
attach_stmt-injective_example =
    attach_stmt-injective duck (codes "it's") (codes "it's") (codes "a\"b") (codes "a\"b")
      (codes "postgres") (codes "postgres") refl
