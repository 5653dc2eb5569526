-- ===== src/Startup/Shards.antt =====
-- cmd/spoofdb/main.go: what `main` does from the configuration on: `-reset`, the Redis instances,
-- `bind` and `startShards`. The calls of the operating system are parameters.
pub mod Engines
pub mod Served
pub mod Listening
use spoofdb.Base.{
  ℕ, ◌+◌, ◌==◌, Bool, true, false, ◌&&◌, List, [], ◌∷◌, ◌++◌, Option, none, some, ◌⊎◌, inl, inr,
  length, if◌then◌else◌,
}
use spoofdb.Base.Int.{ℤ, pos, negsuc}
use spoofdb.Text.{Str, codes}
use spoofdb.Text.Dict.{lookup}
use spoofdb.Config.{Config, SqlInstance, RedisInstance}
use spoofdb.Engine.Sources.{EngineSource}
use spoofdb.Startup.Sources.{StartError, engine_for, sorted_keys}

-- what `os.Remove` gives: no error, `os.IsNotExist` of its error, or another error
pub data Removed : Type 0 where
  removed missing : Removed
  not_removed : Str → Removed

-- the messages of `log.Fatal`, on which the program ends
pub data Fatal : Type 0 where
  reset_failed : Str → Fatal
  redis_failed : Str → Fatal
  no_listeners : Fatal
  engine_failed : Str → StartError → Fatal
  bind_failed : Str → Str → Fatal

-- a listener that serves an engine, with its label
pub record Shard (Ln E : Type 0) : Type 0 where
  pub label : Str
  pub listener : Ln
  pub engine : E

-- what `main` has started
pub record Started (World Ln E : Type 0) : Type 0 where
  pub world : World
  pub engines : List (Str × E)
  pub shards : List (Shard Ln E)

-- "pg[name]"
unfoldable pub shard_label : Str → Str → Str
shard_label proto name = proto ++ b'[' ∷ (name ++ b']' ∷ [])

-- `port == 0`
abbrev pub is_zero : ℤ → Bool
is_zero (pos n) = n == 0
is_zero (negsuc n) = false

module _ {World Ln E R : Type 0} (getenv : Str → Str)
    (load : World → List EngineSource → World × (E ⊎ Str)) (remove : World → Str → World × Removed)
    (listen : World → ℤ → World × (Ln ⊎ Str))
    (start_redis : World → List (Str × RedisInstance) → World × (List R ⊎ Str)) where
  -- the loop of `-reset`
  unfoldable pub reset_files : List Str → World → World × Option Fatal
  reset_files [] w = (w, none)
  reset_files (p ∷ ps) w =
      let (w', r) = remove w p in
      elim r [
        | not_removed m ↦ (w', some (reset_failed m))
        | removed ↦ reset_files ps w'
        | missing ↦ reset_files ps w'
      ]

  -- `-reset`, which does nothing without `-persist`
  unfoldable pub reset : Bool → Bool → Str → World → World × Option Fatal
  unfolding reset_files
  reset on persist data_file w =
      if on && persist
      then reset_files (data_file ∷ (data_file ++ codes ".wal") ∷ []) w
      else (w, none)

  -- `if err != nil { log.Fatal… }` in a loop
  abbrev pub unless_fatal :
      Started World Ln E ⊎ Fatal
      → (Started World Ln E → Started World Ln E ⊎ Fatal)
      → Started World Ln E ⊎ Fatal
  unless_fatal (inr e) next = inr e
  unless_fatal (inl s) next = next s

  -- `bind` and `serve`
  abbrev pub bound : Str → E → Started World Ln E → World × (Ln ⊎ Str) → Started World Ln E ⊎ Fatal
  bound label e s (w, inr m) = inr (bind_failed label m)
  bound label e s (w, inl ln) = inl (record s {
    world = w;
    shards = s.shards ++ record { label = label; listener = ln; engine = e } ∷ [];
  })

  -- a shard behind `engineFor`
  abbrev pub with_engine :
      Str
      → ℤ
      → Started World Ln E
      → World × List (Str × E) × (E ⊎ StartError)
      → Started World Ln E ⊎ Fatal
  with_engine label port s (w, engines, inr e) = inr (engine_failed label e)
  with_engine label port s (w, engines, inl e) =
      bound label e (record s { world = w; engines = engines }) (listen w port)

  module _ (cfg : Config) where
    -- one round of `startShards`; a name that is not configured has a zero instance
    unfoldable pub start_shard :
        Str → Option SqlInstance → Started World Ln E → Started World Ln E ⊎ Fatal
    start_shard label none s = inl s
    start_shard label (some inst) s =
        if is_zero inst.port
        then inl s
        else with_engine label inst.port s
            (engine_for getenv load cfg s.world s.engines inst.sources)

    -- the loop of `startShards`
    unfoldable pub start_named :
        Str → List (Str × SqlInstance) → List Str → Started World Ln E → Started World Ln E ⊎ Fatal
    unfolding start_shard shard_label
    start_named proto insts [] s = inl s
    start_named proto insts (name ∷ names) s =
        unless_fatal (start_shard (shard_label proto name) (lookup name insts) s)
          (λ s'. start_named proto insts names s')

    -- `startShards`
    unfoldable pub start_shards :
        Str → List (Str × SqlInstance) → Started World Ln E → Started World Ln E ⊎ Fatal
    unfolding start_named sorted_keys
    start_shards proto insts s = start_named proto insts (sorted_keys insts) s

    -- `main` from the first `startShards` on
    unfoldable pub start_protocols : Started World Ln E → Started World Ln E ⊎ Fatal
    unfolding start_shards
    start_protocols s = unless_fatal (start_shards (codes "pg") cfg.spoof.postgres s) (λ s1.
        unless_fatal (start_shards (codes "mysql") cfg.spoof.mysql s1)
          (λ s2. start_shards (codes "clickhouse") cfg.spoof.clickhouse s2))

    -- `sqlInstances == 0 && len(instances) == 0`
    abbrev pub has_none : List R → Bool
    has_none rs =
        (length cfg.spoof.postgres + length cfg.spoof.mysql + length cfg.spoof.clickhouse == 0)
        && (length rs == 0)

    -- `main` behind `redis.Start`
    unfoldable pub start_sql : World × (List R ⊎ Str) → Started World Ln E ⊎ Fatal
    unfolding start_protocols
    start_sql (w, inr m) = inr (redis_failed m)
    start_sql (w, inl rs) =
        if has_none rs
        then inr no_listeners
        else start_protocols (record { world = w; engines = []; shards = [] })

    -- `main` behind `-reset`
    unfoldable pub start_all : World × Option Fatal → Started World Ln E ⊎ Fatal
    unfolding start_sql
    start_all (w, some e) = inr e
    start_all (w, none) = start_sql (start_redis w cfg.redis)

    -- `main` from the configuration on, up to its wait for a signal
    unfoldable pub run : Bool → Bool → Str → World → Started World Ln E ⊎ Fatal
    unfolding start_all reset
    run on persist data_file w = start_all (reset on persist data_file w)
