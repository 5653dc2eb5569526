-- ===== src/Startup/Shards/Listening.antt =====
-- Which instances the program serves, and what it ends on.
use spoofdb.Base.{◌+◌, ◌≡◌, Bool, true, ◌&&◌, List, Option, none, some, ◌⊎◌, inl, inr, length}
use spoofdb.Base.Int.{ℤ}
use spoofdb.Text.{Str}
use spoofdb.Config.{Config, RedisInstance}
use spoofdb.Engine.Sources.{EngineSource}
use spoofdb.Startup.Shards.{
  Removed, not_removed, Fatal, reset_failed, redis_failed, no_listeners, Started,
}
use spoofdb.Startup.Shards.Served.{all_targets, AreShards, IsBlamed}

module _ {World Ln E R : Type 0} (getenv : Str → Str)
    (load : World → List EngineSource → World × (E ⊎ Str)) (remove : World → Str → World × Removed)
    (listen : World → ℤ → World × (Ln ⊎ Str))
    (start_redis : World → List (Str × RedisInstance) → World × (List R ⊎ Str)) (cfg : Config) where
  -- why the program ends before its first listener
  pub data IsEarly (reset_on persist : Bool) : Fatal → Type 0 where
    no_reset :
        (w : World) (path m : Str)
        → (reset_on && persist) ≡ true
        → (remove w path).1 ≡ not_removed m
        → IsEarly reset_on persist (reset_failed m)
    no_redis :
        (w : World) (m : Str)
        → (start_redis w cfg.redis).1 ≡ inr m
        → IsEarly reset_on persist (redis_failed m)
    none_configured :
        (length cfg.spoof.postgres + length cfg.spoof.mysql + length cfg.spoof.clickhouse) ≡ 0
        → IsEarly reset_on persist no_listeners

  -- The program waits for a signal with its shards, which are those of the instances with a port, in
  -- their order; or it has ended, because one of these cannot be served or before any was.
  abbrev pub IsListening : Bool → Bool → Started World Ln E ⊎ Fatal → Type 0
  IsListening reset_on persist (inl s) =
      AreShards getenv load remove listen start_redis cfg (all_targets cfg) s.shards
  IsListening reset_on persist (inr e) =
      IsBlamed getenv load remove listen start_redis cfg (all_targets cfg) e
      ⊎ IsEarly reset_on persist e

  -- the error of a `-reset`, where there is one
  abbrev IsReset : Bool → Bool → World × Option Fatal → Type 0
  IsReset reset_on persist (w, none) = Unit
  IsReset reset_on persist (w, some e) = IsEarly reset_on persist e
