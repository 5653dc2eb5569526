-- ===== src/Startup/Flags.antt =====
-- cmd/spoofdb/cli.go: a configuration from the flags -source and -spoof.

use spoofdb.Base.{
  ℕ, Bool, true, false, List, [], ◌∷◌, ◌++◌, Option, none, some, ◌⊎◌, inl, inr, leb, ◌==◌,
  if◌then◌else◌,
}
use spoofdb.Base.Int.{ℤ, pos, neg}
use spoofdb.Text.{Str, codes, Unicode, same, one_of, until, has_prefix, to_lower, trim_space}
use spoofdb.Text.Paths.{ext}
use spoofdb.Decimal.{Parsed, parsed, out_of_range, bad_syntax, parse_uint}
use spoofdb.Config.{Source}

-- `strings.Split(v, ",")`
abbrev begin_part : ℕ → List Str → List Str
begin_part c [] = (c ∷ []) ∷ []
begin_part c (p ∷ ps) = (c ∷ p) ∷ ps

unfoldable pub split_commas : Str → List Str
split_commas [] = [] ∷ []
split_commas (c ∷ s) =
    let rest = split_commas s in if c == b',' then [] ∷ rest else begin_part c rest

abbrev kept_parts : List Str → List Str
kept_parts [] = []
kept_parts (p ∷ ps) =
    let rest = kept_parts ps in if same (trim_space p) [] then rest else trim_space p ∷ rest

-- `(*stringSlice).Set`
unfoldable pub set_flag : Str → List Str → List Str
unfolding split_commas
set_flag v flags = flags ++ kept_parts (split_commas v)

-- the errors of this file, each with what its message shows
pub data FlagError : Type 0 where
  not_both_set no_usable_sources : FlagError
  unsupported_scheme : Str → Str → FlagError
  stat_failed : Str → Str → FlagError
  unknown_file : Str → FlagError
  unknown_protocol : Str → Str → FlagError
  bad_port : Str → FlagError
  no_dump : Str → FlagError

-- the text in front of the first "://"
unfoldable pub scheme : Str → Option Str
unfolding has_prefix
scheme [] = none
scheme (c ∷ s) =
    let rest = scheme s in
    if has_prefix (c ∷ s) (codes "://")
    then some []
    else (elim rest [ none ↦ none | some r ↦ some (c ∷ r) ])

abbrev empty_source : Source
empty_source = record { type = []; path = []; dsn = []; dsn_env = []; tables = [] }

abbrev dsn_source : Str → Str → Source
dsn_source type spec = record empty_source { type = type; dsn = spec }

abbrev path_source : Str → Str → Source
path_source type spec = record empty_source { type = type; path = spec }

-- what a -source names: a source, or a dump for Redis
pub data Given : Type 0 where
  sql : Source → Given
  dump : Given

-- `parseSource` for a URL
unfoldable pub source_by_scheme : Str → Str → Given ⊎ FlagError
unfolding one_of
source_by_scheme spec name =
    if one_of name (codes "postgres" ∷ codes "postgresql" ∷ [])
    then inl (sql (dsn_source (codes "postgres") spec))
    else if same name (codes "mysql")
    then inl (sql (dsn_source (codes "mysql") spec))
    else if same name (codes "clickhouse")
    then inl (sql (dsn_source (codes "clickhouse") spec))
    else inr (unsupported_scheme spec name)

module _ ⦃u : Unicode⦄ where
  -- `parseSource` for a path, with what `os.Stat` says of it: an error, or whether it is a directory
  unfoldable pub source_by_path : Str → Bool ⊎ Str → Given ⊎ FlagError
  unfolding ext
  source_by_path spec (inr m) = inr (stat_failed spec m)
  source_by_path spec (inl true) = inl (sql (path_source (codes "dir") spec))
  source_by_path spec (inl false) =
      if same (to_lower (ext spec)) (codes ".parquet")
      then inl (sql (path_source (codes "parquet") spec))
      else if same (to_lower (ext spec)) (codes ".csv")
      then inl (sql (path_source (codes "csv") spec))
      else if same (to_lower (ext spec)) (codes ".rdb")
      then inl dump
      else inr (unknown_file spec)

  abbrev source_of : (Str → Bool ⊎ Str) → Str → Option Str → Given ⊎ FlagError
  source_of stat spec none = source_by_path spec (stat spec)
  source_of stat spec (some []) = source_by_path spec (stat spec)
  source_of stat spec (some (c ∷ name)) = source_by_scheme spec (c ∷ name)

  -- `parseSource`; `stat` is `os.Stat`
  unfoldable pub parse_source : (Str → Bool ⊎ Str) → Str → Given ⊎ FlagError
  unfolding source_by_scheme source_by_path scheme
  parse_source stat spec = source_of stat spec (scheme spec)

-- a protocol that can be served
pub data Protocol : Type 0 where
  postgres mysql clickhouse redis : Protocol

-- `defaultPort`
unfoldable pub default_port : Protocol → ℤ
default_port postgres = pos 5432
default_port mysql = pos 3306
default_port clickhouse = pos 9000
default_port redis = pos 6379

-- the text behind the first ':', if there is one
abbrev behind_colon : Str → Option Str
behind_colon [] = none
behind_colon (c ∷ s) = let rest = behind_colon s in if c == b':' then some s else rest

abbrev in_int : (ℕ → ℤ) → ℕ → Parsed → Option ℤ
in_int sign bound bad_syntax = none
in_int sign bound out_of_range = none
in_int sign bound (parsed n) = if leb n bound then some (sign n) else none

-- `strconv.Atoi`, with its error
unfoldable pub atoi : Str → Option ℤ
unfolding parse_uint
atoi [] = none
atoi (c ∷ s) =
    if c == b'-'
    then in_int neg 9223372036854775808 (parse_uint s)
    else if c == b'+'
    then in_int pos 9223372036854775807 (parse_uint s)
    else in_int pos 9223372036854775807 (parse_uint (c ∷ s))

module _ ⦃u : Unicode⦄ where
  -- the names of the protocols
  unfoldable pub protocol : Str → Option Protocol
  unfolding one_of
  protocol name =
      if one_of name (codes "postgres" ∷ codes "postgresql" ∷ codes "pg" ∷ [])
      then some postgres
      else if one_of name (codes "mysql" ∷ codes "my" ∷ [])
      then some mysql
      else if one_of name (codes "clickhouse" ∷ codes "ch" ∷ [])
      then some clickhouse
      else if same name (codes "redis")
      then some redis
      else none

  abbrev with_port : Str → Protocol → Option Str → (Protocol × ℤ) ⊎ FlagError
  with_port spec p none = inl (p, default_port p)
  with_port spec p (some port) = elim (atoi (trim_space port)) [
    | none ↦ inr (bad_port spec)
    | some n ↦ inl (p, n)
  ]

  -- `parseSpoof`
  unfoldable pub parse_spoof : Str → (Protocol × ℤ) ⊎ FlagError
  unfolding protocol default_port atoi
  parse_spoof spec =
      let name = until (λ c. c == b':') spec in
      elim (protocol (to_lower (trim_space name))) [
        | none ↦ inr (unknown_protocol spec name)
        | some p ↦ with_port spec p (behind_colon spec)
      ]
