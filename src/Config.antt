-- ===== src/Config.antt =====
-- internal/config/config.go: the configuration, with `ResolvedDSN`. A map is an association list.
use spoofdb.Base.{List, [], if◌then◌else◌}
use spoofdb.Base.Int.{ℤ}
use spoofdb.Text.{Str, same}

-- `Source`
pub record Source : Type 0 where
  pub type : Str
  pub path : Str
  pub dsn : Str
  pub dsn_env : Str
  pub tables : List Str

-- `SQLInstance`
pub record SqlInstance : Type 0 where
  pub port : ℤ
  pub sources : List Str

-- `RedisInstance`
pub record RedisInstance : Type 0 where
  pub port : ℤ
  pub dump : Str

-- `Spoof`
pub record Spoof : Type 0 where
  pub postgres : List (Str × SqlInstance)
  pub mysql : List (Str × SqlInstance)
  pub clickhouse : List (Str × SqlInstance)

-- `Config`
pub record Config : Type 0 where
  pub sources : List (Str × Source)
  pub spoof : Spoof
  pub redis : List (Str × RedisInstance)

-- `ResolvedDSN`; `getenv` is `os.Getenv`
unfoldable pub resolved_dsn : (Str → Str) → Source → Str
unfolding same
resolved_dsn getenv s =
    if same s.dsn_env []
    then s.dsn
    else if same (getenv s.dsn_env) []
    then s.dsn
    else getenv s.dsn_env
