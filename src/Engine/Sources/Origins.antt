-- ===== src/Engine/Sources/Origins.antt =====
-- No table is given to an engine twice, and the first source of a name keeps it.
use mathlib.Core.Path.{subst}
use spoofdb.Base.{
  ◌≡◌, refl, sym, ◌∙◌, ap, Bool, true, List, [], ◌∷◌, ◌++◌, map, Option, none, some, ◌⊎◌, arith,
  if◌then◌else◌,
}
use spoofdb.Text.{Str, Unicode, same, one_of}
use spoofdb.Text.Dict.{lookup, put}
use spoofdb.Engine.Run.Quiet.{IsDistinct}
use spoofdb.Engine.Sources.Loops.{snapshot_all_keeps, load_dir_keeps}
use spoofdb.Engine.Sources.{
  Loader, LoadError, claimed, claim, register, load_dir, snapshot_one, snapshot_all, view_stmt,
  snapshot_stmt, register_failed, snapshot_failed,
}

abbrev pub keys : List (Str × Str) → List Str
keys m = map (λ e. e.0) m

-- the tables are the names that have an origin, in order, and no name stands twice
pub record IsLoaded {Db : Type 0} (l : Loader Db) : Type 0 where
  pub listed : l.tables ≡ keys l.seen
  pub distinct : IsDistinct l.tables

put_new : (k v : Str) (m : List (Str × Str)) → lookup k m ≡ none → put k v m ≡ m ++ (k, v) ∷ []
unfolding lookup put
put_new k v [] h = refl
put_new k v ((j, w) ∷ m) h = ground (arith, put_new k v m)

lookup-put_new :
    (k j v o : Str) (m : List (Str × Str))
    → lookup k m ≡ none
    → lookup j m ≡ some o
    → lookup j (put k v m) ≡ some o
unfolding lookup put
lookup-put_new k j v o [] n h = cc
lookup-put_new k j v o ((i, w) ∷ m) n h = ground (arith, lookup-put_new k j v o m)

keys-append : (m : List (Str × Str)) (k v : Str) → keys (m ++ (k, v) ∷ []) ≡ keys m ++ k ∷ []
keys-append [] k v = refl
keys-append (e ∷ m) k v = ap (λ z. e.0 ∷ z) (keys-append m k v)

one_of-append :
    (j k : Str) (l : List Str) → one_of j (l ++ k ∷ []) ≡ (if one_of j l then true else same j k)
unfolding one_of
one_of-append j k [] = ground arith
one_of-append j k (x ∷ l) = ground (arith, one_of-append j k l)

IsDistinct-snoc :
    (k : Str) (m : List (Str × Str))
    → lookup k m ≡ none
    → IsDistinct (keys m)
    → IsDistinct (keys m ++ k ∷ [])
unfolding lookup one_of
IsDistinct-snoc k [] n h = (refl, tt)
IsDistinct-snoc k ((j, w) ∷ m) n h =
    (ground (arith, one_of-append j k (keys m), h.0), IsDistinct-snoc k m (ground arith) h.1)

claimed-IsLoaded :
    {Db : Type 0} (table origin : Str) (failed : Str → LoadError) (l : Loader Db)
    (r : Db × Option Str)
    → lookup table l.seen ≡ none
    → IsLoaded l
    → IsLoaded (claimed table origin failed l r).0
unfolding claimed
claimed-IsLoaded table origin failed l (db, some m) y i = record {
  listed = i.listed;
  distinct = i.distinct;
}
claimed-IsLoaded table origin failed l (db, none) y i = record {
  listed =
      ap (λ t. t ++ table ∷ []) i.listed
      ∙ sym (ap keys (put_new table origin l.seen y) ∙ keys-append l.seen table origin);
  distinct =
      subst (λ t. IsDistinct (t ++ table ∷ [])) (sym i.listed)
        (IsDistinct-snoc table l.seen y (subst IsDistinct i.listed i.distinct));
}

lookup-claimed :
    {Db : Type 0} (table origin : Str) (failed : Str → LoadError) (l : Loader Db)
    (r : Db × Option Str) (k v : Str)
    → lookup table l.seen ≡ none
    → lookup k l.seen ≡ some v
    → lookup k (claimed table origin failed l r).0.seen ≡ some v
unfolding claimed
lookup-claimed table origin failed l (db, some m) k v y h = h
lookup-claimed table origin failed l (db, none) k v y h = lookup-put_new table k origin v l.seen y h

module _ {Db : Type 0} where
  pub claim-IsLoaded :
      (table : Str) (run : Db → Db × Option Str) (origin : Str) (failed : Str → LoadError)
      (o : Option Str) (l : Loader Db)
      → lookup table l.seen ≡ o
      → IsLoaded l
      → IsLoaded (claim table run origin failed o l).0
  unfolding claim
  claim-IsLoaded table run origin failed (some prev) l y i = record {
    listed = i.listed;
    distinct = i.distinct;
  }
  claim-IsLoaded table run origin failed none l y i =
      claimed-IsLoaded table origin failed l (run l.db) y i

  pub lookup-claim :
      (table : Str) (run : Db → Db × Option Str) (origin : Str) (failed : Str → LoadError)
      (o : Option Str) (l : Loader Db) (k v : Str)
      → lookup table l.seen ≡ o
      → lookup k l.seen ≡ some v
      → lookup k (claim table run origin failed o l).0.seen ≡ some v
  unfolding claim
  lookup-claim table run origin failed (some prev) l k v y h = h
  lookup-claim table run origin failed none l k v y h =
      lookup-claimed table origin failed l (run l.db) k v y h

module _ {Db : Type 0} (exec : Db → Str → Db × Option Str) where
  pub register-IsLoaded :
      (table reader origin : Str) (l : Loader Db)
      → IsLoaded l
      → IsLoaded (register exec table reader origin l).0
  unfolding register
  register-IsLoaded table reader origin l i =
      claim-IsLoaded table (λ db. exec db (view_stmt table reader)) origin (register_failed table)
        (lookup table l.seen) l refl i

  pub lookup-register :
      (k v table reader origin : Str) (l : Loader Db)
      → lookup k l.seen ≡ some v
      → lookup k (register exec table reader origin l).0.seen ≡ some v
  unfolding register
  lookup-register k v table reader origin l h =
      lookup-claim table (λ db. exec db (view_stmt table reader)) origin (register_failed table)
        (lookup table l.seen) l k v refl h

  pub snapshot_one-IsLoaded :
      (source alias : Str) (t : Str × Str) (l : Loader Db)
      → IsLoaded l
      → IsLoaded (snapshot_one exec source alias t l).0
  unfolding snapshot_one
  snapshot_one-IsLoaded source alias t l i =
      claim-IsLoaded t.1 (λ db. exec db (snapshot_stmt alias t.0 t.1)) source
        (snapshot_failed t.1 source) (lookup t.1 l.seen) l refl i

  pub lookup-snapshot_one :
      (k v source alias : Str) (t : Str × Str) (l : Loader Db)
      → lookup k l.seen ≡ some v
      → lookup k (snapshot_one exec source alias t l).0.seen ≡ some v
  unfolding snapshot_one
  lookup-snapshot_one k v source alias t l h =
      lookup-claim t.1 (λ db. exec db (snapshot_stmt alias t.0 t.1)) source
        (snapshot_failed t.1 source) (lookup t.1 l.seen) l k v refl h

  -- Where the tables are the names that have an origin and none stands twice, that still holds behind
  -- the loop over the tables of an attached database, whatever tables it has: one whose name is there
  -- already is skipped.
  pub snapshot_all-IsLoaded :
      (source alias : Str) (ts : List (Str × Str)) (l : Loader Db)
      → IsLoaded l
      → IsLoaded (snapshot_all exec source alias ts l).0
  snapshot_all-IsLoaded source alias =
      snapshot_all_keeps IsLoaded exec source alias (snapshot_one-IsLoaded source alias)

  -- The first source of a name keeps it: what is loaded later from an attached database does not
  -- change the origin of a table.
  pub lookup-snapshot_all :
      (source alias : Str) (ts : List (Str × Str)) (l : Loader Db) (k v : Str)
      → lookup k l.seen ≡ some v
      → lookup k (snapshot_all exec source alias ts l).0.seen ≡ some v
  lookup-snapshot_all source alias ts l k v =
      snapshot_all_keeps (λ l'. lookup k l'.seen ≡ some v) exec source alias
        (lookup-snapshot_one k v source alias) ts l

  module _ ⦃u : Unicode⦄ (join_path : Str → Str → Str) where
    -- Where the tables are the names that have an origin and none stands twice, that still holds
    -- behind the loading of a directory, whatever files it has: one whose table is there already,
    -- such as users.csv next to users.parquet, is skipped.
    pub load_dir-IsLoaded :
        (dir : Str) (entries : List (Str × Bool) ⊎ Str) (l : Loader Db)
        → IsLoaded l
        → IsLoaded (load_dir exec join_path dir entries l).0
    load_dir-IsLoaded = load_dir_keeps IsLoaded exec join_path register-IsLoaded

    -- The first source of a name keeps it: what is loaded later from a directory does not change the
    -- origin of a table.
    pub lookup-load_dir :
        (dir : Str) (entries : List (Str × Bool) ⊎ Str) (l : Loader Db) (k v : Str)
        → lookup k l.seen ≡ some v
        → lookup k (load_dir exec join_path dir entries l).0.seen ≡ some v
    lookup-load_dir dir entries l k v =
        load_dir_keeps (λ l'. lookup k l'.seen ≡ some v) exec join_path (lookup-register k v) dir
          entries l
