-- ===== src/Engine/Load/First.antt =====
-- The tables of a new engine: each has the first source that has its name, and none stands twice.
use spoofdb.Base.{
  ◌≡◌, refl, sym, ap, ◌∙◌, true, false, List, [], ◌∷◌, ◌++◌, Option, none, some, ◌⊎◌, inl, inr,
  arith, if◌then◌else◌, Bool-cases,
}
use mathlib.Core.Path.{subst, fun_ext}
use spoofdb.Text.{Str, Unicode, same, one_of}
use spoofdb.Text.Laws.{same_iff}
use spoofdb.Text.Dict.{lookup}
use spoofdb.Sort.{le_str, insert, sort, sort_strings}
use spoofdb.Sort.Laws.{IsSorted, sort_strings-IsSorted}
use spoofdb.Value.Print.{Formats}
use spoofdb.Engine.Run.Quiet.{IsDistinct}
use spoofdb.Engine.Sources.{
  EngineSource, Loader, LoadError, attach_failed, extension_failed, copy_failed, onward,
  snapshot_one,
}
use spoofdb.Engine.Sources.Origins.{
  keys, IsLoaded, claim-IsLoaded, lookup-claim, register-IsLoaded, lookup-register,
  snapshot_one-IsLoaded, lookup-snapshot_one,
}
use spoofdb.Engine.Sources.Loops.{onward_keeps}
use spoofdb.Engine.Attach.{
  Duck, executed, execute, deferred, alias_of, load_extension, snapshot_listed, attach_snapshot,
  attach_stmt, install_stmt, detach_stmt,
}
use spoofdb.Engine.Pull.{Remote, copy_table, pull_one}
use spoofdb.Engine.Load.{
  Loaded, not_opened, not_loaded, loaded, load, load_all, fresh, opened, load_into,
  new_from_sources_at,
}
use spoofdb.Engine.Load.Keeps.{snapshot_listed_keeps, load_all_keeps}

same_sym : (a b : Str) → same a b ≡ false → same b a ≡ false
same_sym a b h = ground (arith, same_iff a b, same_iff b a)

one_of-insert :
    (j k : Str) (l : List Str)
    → one_of j (insert le_str k l) ≡ (if same j k then true else one_of j l)
unfolding one_of insert
one_of-insert j k [] = ground arith
one_of-insert j k (x ∷ l) = ground (arith, one_of-insert j k l)

one_of-sort : (j : Str) (l : List Str) → one_of j (sort le_str l) ≡ one_of j l
unfolding one_of sort
one_of-sort j [] = refl
one_of-sort j (x ∷ l) = ground (arith, one_of-insert j x (sort le_str l), one_of-sort j l)

insert-IsDistinct :
    (k : Str) (l : List Str) → one_of k l ≡ false → IsDistinct l → IsDistinct (insert le_str k l)
unfolding one_of insert
insert-IsDistinct k [] n h = (refl, tt)
insert-IsDistinct k (x ∷ l) n h = elim (Bool-cases (le_str k x)) [
  | inl q ↦ rw (q, if◌then◌else◌) (n, h)
  | inr q ↦
      rw (q, if◌then◌else◌)
        (
          ground (arith, one_of-insert x k l, h.0, same_sym k x),
          insert-IsDistinct k l (ground arith) h.1,
        )
]

sort-IsDistinct : (l : List Str) → IsDistinct l → IsDistinct (sort le_str l)
unfolding sort
sort-IsDistinct [] h = tt
sort-IsDistinct (x ∷ l) h =
    insert-IsDistinct x (sort le_str l) (one_of-sort x l ∙ h.0) (sort-IsDistinct l h.1)

module _ {Db Conn : Type 0} (d : Duck Db) (r : Remote Conn) ⦃u : Unicode⦄ ⦃fm : Formats⦄
    (P : Loader Db → Type 0)
    (moved : (l : Loader Db) (db : Db) → P l → P (record l { db = db })) where
  executed_keeps :
      (failed : Str → LoadError) (l : Loader Db) (x : Db × Option Str)
      → P l
      → P (executed failed l x).0
  unfolding executed
  executed_keeps failed l (db, none) h = moved l db h
  executed_keeps failed l (db, some m) h = moved l db h

  execute_keeps :
      (stmt : Str) (failed : Str → LoadError) (l : Loader Db) → P l → P (execute d stmt failed l).0
  unfolding execute
  execute_keeps stmt failed l h = executed_keeps failed l (d.exec l.db stmt) h

  deferred_keeps : (stmt : Str) (x : Loader Db × Option LoadError) → P x.0 → P (deferred d stmt x).0
  unfolding deferred
  deferred_keeps stmt (l, e) h = moved l (d.exec l.db stmt).0 h

  load_extension_keeps : (ext : Str) (l : Loader Db) → P l → P (load_extension d ext l).0
  unfolding load_extension
  load_extension_keeps ext l h = elim (Bool-cases (same ext [])) [
    | inl q ↦ rw (q, load_extension) h
    | inr q ↦ rw (q, load_extension) (execute_keeps (install_stmt d ext) (extension_failed ext) l h)
  ]

  attach_snapshot_keeps :
      (step : (source alias : Str) (t : Str × Str) (l : Loader Db)
        → P l
        → P (snapshot_one d.exec source alias t l).0)
      (src : EngineSource) (ext attach_type : Str) (l : Loader Db)
      → P l
      → P (attach_snapshot d src ext attach_type l).0
  unfolding attach_snapshot
  attach_snapshot_keeps step src ext attach_type l h = elim (Bool-cases (same src.dsn [])) [
    | inl q ↦ rw (q, attach_snapshot, if◌then◌else◌) h
    | inr q ↦
        rw (q, attach_snapshot, if◌then◌else◌)
          (onward_keeps P (load_extension d ext l) _ (load_extension_keeps ext l h) (λ l1 h1.
            onward_keeps P
              (execute d (attach_stmt d src.dsn (alias_of d src) attach_type)
                (attach_failed src.name) l1)
              _
              (execute_keeps (attach_stmt d src.dsn (alias_of d src) attach_type)
                (attach_failed src.name) l1 h1)
              (λ l2 h2.
                deferred_keeps (detach_stmt d (alias_of d src))
                  (snapshot_listed d src (d.list_attached l2.db (alias_of d src)) l2)
                  (snapshot_listed_keeps d r P src (step src.name (alias_of d src))
                    (d.list_attached l2.db (alias_of d src)) l2 h2))))
  ]

module _ {Db Conn : Type 0} (d : Duck Db) (r : Remote Conn) ⦃u : Unicode⦄ ⦃fm : Formats⦄ where
  pull_one-IsLoaded :
      (source : Str) (conn : Conn) (table : Str) (l : Loader Db)
      → IsLoaded l
      → IsLoaded (pull_one d r source conn table l).0
  unfolding pull_one
  pull_one-IsLoaded source conn table l i =
      claim-IsLoaded table (copy_table d r conn table) source (copy_failed source table)
        (lookup table l.seen) l refl i

  lookup-pull_one :
      (k v source : Str) (conn : Conn) (table : Str) (l : Loader Db)
      → lookup k l.seen ≡ some v
      → lookup k (pull_one d r source conn table l).0.seen ≡ some v
  unfolding pull_one
  lookup-pull_one k v source conn table l h =
      lookup-claim table (copy_table d r conn table) source (copy_failed source table)
        (lookup table l.seen) l k v refl h

  load_all-IsLoaded :
      (sources : List EngineSource) (l : Loader Db)
      → IsLoaded l
      → IsLoaded (load_all d r sources l).0
  load_all-IsLoaded = load_all_keeps d r IsLoaded pull_one-IsLoaded (register-IsLoaded d.exec) (
      attach_snapshot_keeps d r IsLoaded
        (λ l db i. record { listed = i.listed; distinct = i.distinct })
        (snapshot_one-IsLoaded d.exec))

  lookup-load_all :
      (k v : Str) (sources : List EngineSource) (l : Loader Db)
      → lookup k l.seen ≡ some v
      → lookup k (load_all d r sources l).0.seen ≡ some v
  lookup-load_all k v =
      load_all_keeps d r (λ l. lookup k l.seen ≡ some v) (lookup-pull_one k v)
        (lookup-register d.exec k v)
        (attach_snapshot_keeps d r (λ l. lookup k l.seen ≡ some v) (λ l db h. h)
          (lookup-snapshot_one d.exec k v))

  onward_twice :
      (x : Loader Db × Option LoadError) (f g : Loader Db → Loader Db × Option LoadError)
      → onward (onward x f) g ≡ onward x (λ l. onward (f l) g)
  onward_twice (l, some e) f g = refl
  onward_twice (l, none) f g = refl

  load_all-append :
      (before after : List EngineSource) (l : Loader Db)
      → load_all d r (before ++ after) l ≡ onward (load_all d r before l) (load_all d r after)
  unfolding load_all
  load_all-append [] after l = refl
  load_all-append (s ∷ before) after l =
      ap (onward (load d r s l)) (fun_ext (λ l'. load_all-append before after l'))
      ∙ sym (onward_twice (load d r s l) (load_all d r before) (load_all d r after))

  -- The first source that has a table's name keeps it: whatever sources stand behind, and whether or
  -- not they can be loaded, the origin of a table is the one that the sources in front have given it.
  pub lookup-load_all-append :
      (before after : List EngineSource) (l : Loader Db) (k v : Str)
      → lookup k (load_all d r before l).0.seen ≡ some v
      → lookup k (load_all d r (before ++ after) l).0.seen ≡ some v
  lookup-load_all-append before after l k v h =
      subst (λ x. lookup k x.0.seen ≡ some v) (sym (load_all-append before after l))
        (onward_keeps (λ l'. lookup k l'.seen ≡ some v) (load_all d r before l) (load_all d r after)
          h (lookup-load_all k v after))

-- an engine that is returned: its tables are the names that have an origin, sorted, and none stands
-- twice
pub record HasTables {Db : Type 0} (l : Loader Db) : Type 0 where
  pub listed : l.tables ≡ sort_strings (keys l.seen)
  pub sorted : IsSorted le_str l.tables
  pub distinct : IsDistinct l.tables

abbrev pub IsReturned : {Db : Type 0} → (Loader Db → Type 0) → Loaded Db → Type 0
IsReturned P (not_opened m) = Unit
IsReturned P (not_loaded db e) = Unit
IsReturned P (loaded l) = P l

module _ {Db Conn : Type 0} (d : Duck Db) (r : Remote Conn) ⦃u : Unicode⦄ ⦃fm : Formats⦄ where
  opened-HasTables :
      (x : Loader Db × Option LoadError) → IsLoaded x.0 → IsReturned HasTables (opened d r x)
  unfolding opened sort_strings
  opened-HasTables (l, some e) i = tt
  opened-HasTables (l, none) i = record {
    listed = ap sort_strings i.listed;
    sorted = sort_strings-IsSorted l.tables;
    distinct = sort-IsDistinct l.tables i.distinct;
  }

  fresh-IsLoaded : (db : Db) → IsLoaded (fresh db)
  unfolding fresh
  fresh-IsLoaded db = record { listed = refl; distinct = tt }

  load_into-HasTables :
      (sources : List EngineSource) (o : Db ⊎ Str) → IsReturned HasTables (load_into d r sources o)
  unfolding load_into
  load_into-HasTables sources (inr m) = tt
  load_into-HasTables sources (inl db) =
      opened-HasTables (load_all d r sources (fresh db))
        (load_all-IsLoaded d r sources (fresh db) (fresh-IsLoaded db))

  -- The tables of an engine that NewFromSourcesAt returns are sorted, none stands twice, and they are
  -- the names that a source has given: files, directories, attached databases and ClickHouse
  -- alike.
  pub new_from_sources_at-HasTables :
      (path : Str) (sources : List EngineSource)
      → IsReturned HasTables (new_from_sources_at d r path sources)
  unfolding new_from_sources_at
  new_from_sources_at-HasTables path sources = load_into-HasTables sources (d.open_file path)
