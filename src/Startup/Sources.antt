-- ===== src/Startup/Sources.antt =====
-- cmd/spoofdb/main.go: `selectSources`, `engineKey`, `sortedKeys` and `engineFor`.
pub mod Key
use spoofdb.Base.{
  Bool, true, false, List, [], ◌∷◌, map, Option, none, some, ◌⊎◌, inl, inr, if◌then◌else◌,
}
use spoofdb.Text.{Str, codes, join}
use spoofdb.Text.Dict.{lookup, put}
use spoofdb.Engine.Sources.{EngineSource}
use spoofdb.Sort.{sort_strings}
use spoofdb.Config.{Config, Source, resolved_dsn}

-- the two errors of `engineFor`: a name that no source has, and what the engine says
pub data StartError : Type 0 where
  unknown_source : Str → StartError
  not_loaded : Str → StartError

unfoldable pub engine_source : (Str → Str) → Str → Source → EngineSource
engine_source getenv name s = record {
  name = name;
  type = s.type;
  path = s.path;
  dsn = resolved_dsn getenv s;
  tables = s.tables;
}

-- one source in front of the sources behind it
abbrev pub found :
    (Str → Str)
    → Str
    → Option Source
    → List EngineSource ⊎ StartError
    → List EngineSource ⊎ StartError
found getenv name none rest = inr (unknown_source name)
found getenv name (some s) (inl srcs) = inl (engine_source getenv name s ∷ srcs)
found getenv name (some s) (inr e) = inr e

-- the loop of `selectSources`
unfoldable pub select_from :
    (Str → Str) → List (Str × Source) → List Str → List EngineSource ⊎ StartError
select_from getenv sources [] = inl []
select_from getenv sources (name ∷ names) =
    found getenv name (lookup name sources) (select_from getenv sources names)

-- the names that are asked for: all of them if the list is empty
abbrev pub wanted : Config → List Str → List Str
wanted cfg [] = map (λ e. e.0) cfg.sources
wanted cfg (n ∷ ns) = n ∷ ns

-- `selectSources`
unfoldable pub select_sources : (Str → Str) → Config → List Str → List EngineSource ⊎ StartError
unfolding select_from
select_sources getenv cfg names = select_from getenv cfg.sources (sort_strings (wanted cfg names))

abbrev pub key_of : List Str → Str
key_of [] = codes "(none)"
key_of (n ∷ ns) = join (0 ∷ []) (n ∷ ns)

-- `engineKey`
unfoldable pub engine_key : List EngineSource → Str
engine_key srcs = key_of (sort_strings (map (λ s. s.name) srcs))

-- `sortedKeys`
unfoldable pub sorted_keys : {V : Type 0} → List (Str × V) → List Str
sorted_keys m = sort_strings (map (λ e. e.0) m)

module _ {World E : Type 0} (getenv : Str → Str)
    (load : World → List EngineSource → World × (E ⊎ Str)) where
  -- `engineFor` behind the look-up of the key: `load` is `engine.NewFromSourcesAt` with
  -- `SetStubMissing`, on a world that it may change
  abbrev pub made :
      List (Str × E) → Str → World × (E ⊎ Str) → World × List (Str × E) × (E ⊎ StartError)
  made engines key (w, inl e) = (w, put key e engines, inl e)
  made engines key (w, inr m) = (w, engines, inr (not_loaded m))

  abbrev pub engine_at :
      World
      → List (Str × E)
      → List EngineSource
      → Option E
      → World × List (Str × E) × (E ⊎ StartError)
  engine_at w engines srcs (some e) = (w, engines, inl e)
  engine_at w engines srcs none = made engines (engine_key srcs) (load w srcs)

  abbrev pub engine_of :
      World
      → List (Str × E)
      → List EngineSource ⊎ StartError
      → World × List (Str × E) × (E ⊎ StartError)
  engine_of w engines (inl srcs) = engine_at w engines srcs (lookup (engine_key srcs) engines)
  engine_of w engines (inr e) = (w, engines, inr e)

  -- `engineFor`
  unfoldable pub engine_for :
      Config → World → List (Str × E) → List Str → World × List (Str × E) × (E ⊎ StartError)
  engine_for cfg w engines names = engine_of w engines (select_sources getenv cfg names)
