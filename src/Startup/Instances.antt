-- ===== src/Startup/Instances.antt =====
-- cmd/spoofdb/cli.go: `configFromFlags`.
pub mod Labels
pub mod Placed
pub mod Served
use spoofdb.Base.{
  ℕ, ◌+◌, Bool, true, false, List, [], ◌∷◌, ◌++◌, Option, none, some, ◌⊎◌, inl, inr, ◌==◌,
  if◌then◌else◌, get_elem?,
}
use spoofdb.Base.Int.{ℤ}
use spoofdb.Text.{Str, codes, Unicode}
use spoofdb.Text.Dict.{put}
use spoofdb.Decimal.{print_nat}
use spoofdb.Config.{Config, Source, Spoof, SqlInstance, RedisInstance}
use spoofdb.Startup.Flags.{
  FlagError, not_both_set, no_usable_sources, no_dump, Given, sql, dump, parse_source, Protocol,
  postgres, mysql, clickhouse, redis, parse_spoof,
}

-- what the loop over the sources has gathered: `cfg.Sources`, `redisDumps` and `sqlCount`
pub record Gathered : Type 0 where
  pub sources : List (Str × Source)
  pub dumps : List Str
  pub count : ℕ

unfoldable pub gather_one : Str → Given → Gathered → Gathered
gather_one spec dump g = record g { dumps = g.dumps ++ spec ∷ [] }
gather_one spec (sql src) g = record g {
  sources = put (codes "src" ++ print_nat g.count) src g.sources;
  count = g.count + 1;
}

-- what the loop over the targets has made: the maps of `cfg.Spoof` and `cfg.Redis`, and `perProto`
pub record Made : Type 0 where
  pub spoof : Spoof
  pub redis_map : List (Str × RedisInstance)
  pub postgres_count : ℕ
  pub mysql_count : ℕ
  pub clickhouse_count : ℕ
  pub redis_count : ℕ

-- the name of an instance
unfoldable pub label : ℕ → Str
label i = codes "shard" ++ print_nat i

abbrev pub sql_instance : ℤ → SqlInstance
sql_instance port = record { port = port; sources = [] }

abbrev pub place_redis : Str → ℤ → Made → Option Str → Made ⊎ FlagError
place_redis spec port b none = inr (no_dump spec)
place_redis spec port b (some d) = inl (record b {
  redis_map = put (label b.redis_count) (record { port = port; dump = d }) b.redis_map;
  redis_count = b.redis_count + 1;
})

-- the `switch` on the protocol, with `idx` and `perProto[proto]++`
unfoldable pub place : List Str → Str → Protocol → ℤ → Made → Made ⊎ FlagError
place dumps spec postgres port b = inl (record b {
  spoof = record b.spoof {
    postgres = put (label b.postgres_count) (sql_instance port) b.spoof.postgres;
  };
  postgres_count = b.postgres_count + 1;
})
place dumps spec mysql port b = inl (record b {
  spoof = record b.spoof { mysql = put (label b.mysql_count) (sql_instance port) b.spoof.mysql };
  mysql_count = b.mysql_count + 1;
})
place dumps spec clickhouse port b = inl (record b {
  spoof = record b.spoof {
    clickhouse = put (label b.clickhouse_count) (sql_instance port) b.spoof.clickhouse;
  };
  clickhouse_count = b.clickhouse_count + 1;
})
place dumps spec redis port b = place_redis spec port b (get_elem? dumps b.redis_count)

abbrev pub nothing_gathered : Gathered
nothing_gathered = record { sources = []; dumps = []; count = 0 }

abbrev pub nothing_made : Made
nothing_made = record {
  spoof = record { postgres = []; mysql = []; clickhouse = [] };
  redis_map = [];
  postgres_count = 0;
  mysql_count = 0;
  clickhouse_count = 0;
  redis_count = 0;
}

-- the test behind the loops, and the configuration
unfoldable pub finish : Gathered → Made → Config ⊎ FlagError
finish g b = elim (b.redis_map) [
  | [] ↦
      if g.count == 0
      then inr no_usable_sources
      else inl (record { sources = g.sources; spoof = b.spoof; redis = [] })
  | e ∷ es ↦ inl (record { sources = g.sources; spoof = b.spoof; redis = e ∷ es })
]

-- `if err != nil { return nil, err }`
abbrev pub and_then : {A B : Type 0} → A ⊎ FlagError → (A → B ⊎ FlagError) → B ⊎ FlagError
and_then (inl a) f = f a
and_then (inr e) f = inr e

module _ ⦃u : Unicode⦄ where
  -- the loop over the targets
  unfoldable pub place_all : List Str → List Str → Made → Made ⊎ FlagError
  unfolding place
  place_all dumps [] b = inl b
  place_all dumps (spec ∷ specs) b =
      and_then (parse_spoof spec)
        (λ r. and_then (place dumps spec r.0 r.1 b) (λ b'. place_all dumps specs b'))

  module _ (stat : Str → Bool ⊎ Str) where
    -- the loop over the sources
    unfoldable pub gather : List Str → Gathered → Gathered ⊎ FlagError
    unfolding gather_one
    gather [] g = inl g
    gather (spec ∷ specs) g =
        and_then (parse_source stat spec) (λ given. gather specs (gather_one spec given g))

    abbrev pub config_of : List Str → Gathered → Config ⊎ FlagError
    config_of spoof_specs g =
        and_then (place_all g.dumps spoof_specs nothing_made) (λ b. finish g b)

    -- `configFromFlags`
    unfoldable pub config_from_flags : List Str → List Str → Config ⊎ FlagError
    unfolding gather place_all finish
    config_from_flags [] spoof_specs = inr not_both_set
    config_from_flags (s ∷ source_specs) [] = inr not_both_set
    config_from_flags (s ∷ source_specs) (t ∷ spoof_specs) =
        and_then (gather (s ∷ source_specs) nothing_gathered) (λ g. config_of (t ∷ spoof_specs) g)
