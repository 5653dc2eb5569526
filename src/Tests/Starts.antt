-- ===== src/Tests/Starts.antt =====
-- The start-up on two sources.
use mathlib.Core.List.{Perm}
use mathlib.Core.List.Perm
use spoofdb.Decimal.{print_nat}
use spoofdb.Startup.Flags.{parse_source, parse_spoof}
use spoofdb.Text.Dict.{lookup, put}
use spoofdb.Sort.{sort_strings}
use spoofdb.Base.{◌≡◌, ◌↔◌, refl, true, Bool, List, [], ◌∷◌, ◌⊎◌, inl, ◌++◌}
use spoofdb.Base.Int.{ℤ, pos}
use spoofdb.Text.{Str, codes, same, to_lower, trim_space, until}
use spoofdb.Config.{Config, Source, RedisInstance}
use spoofdb.Engine.Sources.{EngineSource}
use spoofdb.Startup.Sources.{select_sources, engine_key, engine_for, engine_source, sorted_keys}
use spoofdb.Startup.Sources.Key.{behind_requests, engine_for_shared, engine_key_iff, names_of}
use spoofdb.Startup.Instances.{config_from_flags, sql_instance, label}
use spoofdb.Startup.Instances.Served.{IsServed, config_from_flags-IsServed}
use spoofdb.Startup.Shards.{Removed, missing, shard_label}
use spoofdb.Startup.Shards.Served.{protocol_targets}
use spoofdb.Tests.Fixtures.{no_case}

abbrev dir : Source
dir = record { type = codes "dir"; path = codes "testdata"; dsn = []; dsn_env = []; tables = [] }

abbrev config : Config
config = record {
  sources = (codes "b", dir) ∷ (codes "a", dir) ∷ [];
  spoof = record { postgres = []; mysql = []; clickhouse = [] };
  redis = [];
}

abbrev getenv : Str → Str
getenv name = []

-- the world is the loads that were made, an engine the names that it was loaded from
abbrev load : List (List Str) → List EngineSource → List (List Str) × (List Str ⊎ Str)
load loads srcs = (loads ++ names_of srcs ∷ [], inl (names_of srcs))

abbrev both : List Str
both = codes "a" ∷ codes "b" ∷ []

loaded : (engine_for getenv load config [] [] both).2 ≡ inl both
unfolding engine_for select_sources sort_strings lookup engine_source
loaded = refl

-- between two requests for both, one for the first source
engine_for_shared_example :
    (let r = engine_for getenv load config [] [] both in
      let (v, later) = behind_requests getenv load config ((codes "a" ∷ []) ∷ []) (r.0, r.1) in
      engine_for getenv load config v later [] ≡ (v, later, inl both))
engine_for_shared_example =
    engine_for_shared getenv load config [] [] both [] ((codes "a" ∷ []) ∷ []) both
      (Perm.swap _ _ _) loaded

abbrev source : Str → EngineSource
source name = record { name = name; type = codes "dir"; path = []; dsn = []; tables = [] }

abbrev a_b : List EngineSource
a_b = source (codes "a") ∷ source (codes "b") ∷ []

abbrev b_a : List EngineSource
b_a = source (codes "b") ∷ source (codes "a") ∷ []

engine_key_iff_example : (engine_key a_b ≡ engine_key b_a) ↔ Perm (names_of a_b) (names_of b_a)
engine_key_iff_example =
    engine_key_iff a_b b_a (cc) (cc) (((cc), tt), (((cc), tt), tt)) (((cc), tt), (((cc), tt), tt))

-- a file system with one directory
abbrev stat : Str → Bool ⊎ Str
stat path = inl true

abbrev served : Config
served = record {
  sources = (codes "src0", dir) ∷ [];
  spoof = record {
    postgres = (codes "shard0", sql_instance (pos 5433)) ∷ [];
    mysql =
        (codes "shard0", sql_instance (pos 3306)) ∷ (codes "shard1", sql_instance (pos 3307)) ∷ [];
    clickhouse = [];
  };
  redis = [];
}

abbrev targets : List Str
targets = codes "mysql" ∷ codes "pg:5433" ∷ codes "my:3307" ∷ []

config_from_flags_test : config_from_flags stat (codes "testdata" ∷ []) targets ≡ inl served
unfolding config_from_flags parse_source parse_spoof same to_lower trim_space until put print_nat
    label
config_from_flags_test = refl

config_from_flags-IsServed_example : IsServed stat (codes "testdata" ∷ []) targets served
config_from_flags-IsServed_example =
    config_from_flags-IsServed stat (codes "testdata" ∷ []) targets served config_from_flags_test

-- a removal that finds no file, and a listener that is its port
abbrev remove : List (List Str) → Str → List (List Str) × Removed
remove w path = (w, missing)

abbrev listen : List (List Str) → ℤ → List (List Str) × (ℤ ⊎ Str)
listen w port = (w, inl port)

abbrev start_redis :
    List (List Str) → List (Str × RedisInstance) → List (List Str) × (List Str ⊎ Str)
start_redis w instances = (w, inl [])

targets_test :
    protocol_targets (codes "mysql") served.spoof.mysql
    ≡ (codes "mysql[shard0]", sql_instance (pos 3306))
      ∷ (codes "mysql[shard1]", sql_instance (pos 3307))
      ∷ []
unfolding sort_strings lookup sorted_keys shard_label
targets_test = refl
