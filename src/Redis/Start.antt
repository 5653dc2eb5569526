-- ===== src/Redis/Start.antt =====
-- internal/redis/redis.go: `Start` and `startInstance`.
pub mod Closed
use spoofdb.Base.{
  ℕ, Bool, true, false, List, [], ◌∷◌, ◌++◌, Option, none, some, ◌⊎◌, inl, inr, if◌then◌else◌,
}
use spoofdb.Base.Int.{ℤ}
use spoofdb.Text.{Str, codes, same}
use spoofdb.Config.{RedisInstance}
use spoofdb.Redis.Seed.{Mini, Seed, seed_from_rdb}

-- `Instance`
pub record Instance (Mr : Type 0) : Type 0 where
  pub name : Str
  pub mr : Mr

-- the errors of `startInstance`, each with what its message shows
pub data RedisError : Type 0 where
  start_failed : Str → ℤ → Str → RedisError
  seed_failed : Str → Str → Str → RedisError

-- the line of an instance that listens: its name, port, keys, databases and dump
pub data ListenLine : Type 0 where
  listening : Str → ℤ → ℕ → ℕ → Str → ListenLine

module _ {World Mr : Type 0} (r : Mini World Mr) where
  -- `startInstance` behind the seeding
  unfoldable pub seeded :
      Str
      → RedisInstance
      → Mr
      → Seed World × Option Str
      → World × (Instance Mr × ListenLine ⊎ RedisError)
  seeded name cfg mr (s, some m) = (r.close s.world mr, inr (seed_failed name cfg.dump m))
  seeded name cfg mr (s, none) = (
    s.world,
    inl (record { name = name; mr = mr }, listening name cfg.port s.keys s.dbs cfg.dump),
  )

  -- `startInstance` behind `StartAddr`
  unfoldable pub started :
      Str → RedisInstance → World × (Mr ⊎ Str) → World × (Instance Mr × ListenLine ⊎ RedisError)
  unfolding seeded seed_from_rdb
  started name cfg (w, inr m) = (w, inr (start_failed name cfg.port m))
  started name cfg (w, inl mr) =
      if same cfg.dump []
      then (w, inl (record { name = name; mr = mr }, listening name cfg.port 0 0 cfg.dump))
      else seeded name cfg mr (seed_from_rdb r mr cfg.dump w)

  -- `startInstance`
  unfoldable pub start_instance :
      Str → RedisInstance → World → World × (Instance Mr × ListenLine ⊎ RedisError)
  unfolding started
  start_instance name cfg w = started name cfg (r.start_addr w cfg.port)

  -- `for _, s := range started { s.Close() }`
  unfoldable pub close_all : List (Instance Mr) → World → World
  close_all [] w = w
  close_all (i ∷ is) w = close_all is (r.close w i.mr)

  -- one round of `Start`
  abbrev pub unless_started :
      List (Instance Mr)
      → World × (Instance Mr × ListenLine ⊎ RedisError)
      → (List (Instance Mr) → World → World × (List (Instance Mr) ⊎ RedisError))
      → World × (List (Instance Mr) ⊎ RedisError)
  unless_started done (w, inr e) next = (close_all done w, inr e)
  unless_started done (w, inl (i, line)) next = next (done ++ i ∷ []) w

  -- the loop of `Start`, over the instances in the order in which the map gives them
  unfoldable pub start_from :
      List (Instance Mr)
      → List (Str × RedisInstance)
      → World
      → World × (List (Instance Mr) ⊎ RedisError)
  unfolding start_instance close_all
  start_from done [] w = (w, inl done)
  start_from done ((name, cfg) ∷ rest) w =
      unless_started done (start_instance name cfg w) (λ done' w'. start_from done' rest w')

  -- `Start`
  unfoldable pub start :
      List (Str × RedisInstance) → World → World × (List (Instance Mr) ⊎ RedisError)
  unfolding start_from
  start instances w = start_from [] instances w
