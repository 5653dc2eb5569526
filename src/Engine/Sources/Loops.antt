-- ===== src/Engine/Sources/Loops.antt =====
-- What each step of a loop over sources keeps, the loop keeps.
use spoofdb.Base.{Bool, true, false, List, [], ◌∷◌, Option, none, some, ◌⊎◌, inl, inr}
use spoofdb.Text.{Str, Unicode}
use spoofdb.Engine.Sources.{
  Loader, LoadError, register, onward, load_file, load_entry, load_entries, load_dir, snapshot_one,
  snapshot_all,
}

module _ {Db : Type 0} (P : Loader Db → Type 0) where
  pub onward_keeps :
      (r : Loader Db × Option LoadError) (next : Loader Db → Loader Db × Option LoadError)
      → P r.0
      → ((l : Loader Db) → P l → P (next l).0)
      → P (onward r next).0
  onward_keeps (l, some e) next h k = h
  onward_keeps (l, none) next h k = k l h

  module _ (exec : Db → Str → Db × Option Str) where
    pub snapshot_all_keeps :
        (source alias : Str)
        (step : (t : Str × Str) (l : Loader Db) → P l → P (snapshot_one exec source alias t l).0)
        (ts : List (Str × Str)) (l : Loader Db)
        → P l
        → P (snapshot_all exec source alias ts l).0
    unfolding snapshot_all
    snapshot_all_keeps source alias step [] l h = h
    snapshot_all_keeps source alias step (t ∷ ts) l h =
        onward_keeps (snapshot_one exec source alias t l)
          (λ l'. snapshot_all exec source alias ts l') (step t l h)
          (λ l' h'. snapshot_all_keeps source alias step ts l' h')

    module _ ⦃u : Unicode⦄ (join_path : Str → Str → Str)
        (step : (table reader origin : Str) (l : Loader Db)
          → P l
          → P (register exec table reader origin l).0) where
      load_file_keeps :
          (name path : Str) (reader : Option Str) (l : Loader Db)
          → P l
          → P (load_file exec join_path name path reader l).0
      load_file_keeps name path none l h = h
      load_file_keeps name path (some reader) l h = step _ reader path l h

      load_entry_keeps :
          (dir : Str) (e : Str × Bool) (l : Loader Db)
          → P l
          → P (load_entry exec join_path dir e l).0
      unfolding load_entry
      load_entry_keeps dir (name, true) l h = h
      load_entry_keeps dir (name, false) l h = load_file_keeps name (join_path dir name) _ l h

      load_entries_keeps :
          (dir : Str) (es : List (Str × Bool)) (l : Loader Db)
          → P l
          → P (load_entries exec join_path dir es l).0
      unfolding load_entries
      load_entries_keeps dir [] l h = h
      load_entries_keeps dir (e ∷ es) l h =
          onward_keeps (load_entry exec join_path dir e l)
            (λ l'. load_entries exec join_path dir es l') (load_entry_keeps dir e l h)
            (λ l' h'. load_entries_keeps dir es l' h')

      pub load_dir_keeps :
          (dir : Str) (entries : List (Str × Bool) ⊎ Str) (l : Loader Db)
          → P l
          → P (load_dir exec join_path dir entries l).0
      unfolding load_dir
      load_dir_keeps dir (inl es) l h = load_entries_keeps dir es l h
      load_dir_keeps dir (inr m) l h = h
