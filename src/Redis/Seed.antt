-- ===== src/Redis/Seed.antt =====
-- internal/redis/seed.go: `seedFromRDB`. What miniredis and the parser of dumps do is the interface
-- `Mini`, on the states of a world that holds all stores.
pub mod Counted
pub mod Running
use spoofdb.Base.{
  ℕ, suc, ◌+◌, Bool, true, false, List, [], ◌∷◌, ◌++◌, Option, none, some, ◌⊎◌, inl, inr, ◌==◌,
  if◌then◌else◌,
}
use spoofdb.Base.Int.{ℤ}
use spoofdb.Text.{Str, codes}

-- the types of `model.RedisObject` that the source tells apart; a score is its bit pattern
pub data Payload : Type 0 where
  string_object : Str → Payload
  list_object : List Str → Payload
  set_object : List Str → Payload
  hash_object : List (Str × Str) → Payload
  zset_object : List (ℕ × Str) → Payload
  stream_object : Payload
  other_object : Payload

-- an object of a dump, with `GetKey`, `GetDBIndex` and `GetExpiration`
pub record RdbObject : Type 0 where
  pub key : Str
  pub db : ℕ
  pub payload : Payload
  pub expiration : Option ℤ

-- what a parsed dump is: the objects that the callback gets, and the error of `Parse`
pub record Dump : Type 0 where
  pub objects : List RdbObject
  pub err : Option Str

-- The calls of miniredis on a store `Mr` and a database of it, with the error of those that have one;
-- the dump at a path, where it can be opened; `exp.After(now)` with `exp.Sub(now)`, which is none for
-- a time that is past.
pub record Mini (World Mr : Type 0) : Type 0 where
  pub start_addr : World → ℤ → World × (Mr ⊎ Str)
  pub close : World → Mr → World
  pub set : Mr → ℕ → Str → Str → World → World × Option Str
  pub push : Mr → ℕ → Str → List Str → World → World × Option Str
  pub set_add : Mr → ℕ → Str → List Str → World → World × Option Str
  pub h_set : Mr → ℕ → Str → List Str → World → World
  pub z_add : Mr → ℕ → Str → ℕ → Str → World → World × Option Str
  pub set_ttl : Mr → ℕ → Str → ℤ → World → World
  pub read_dump : Str → Dump ⊎ Str
  pub now : World → ℤ
  pub left_after : ℤ → ℤ → Option ℤ

-- the lines that seeding logs: a call that failed, with the key and its error; a stream
pub data SeedLine : Type 0 where
  failed : Str → Str → Str → SeedLine
  skipped : Str → SeedLine

-- the state of the callback: `stats`, `seenDB`, the world and the lines
pub record Seed (World : Type 0) : Type 0 where
  pub world : World
  pub keys : ℕ
  pub dbs : ℕ
  pub seen : List ℕ
  pub log : List SeedLine

-- is a database in `seenDB`?
unfoldable pub is_seen : ℕ → List ℕ → Bool
is_seen n [] = false
is_seen n (m ∷ ms) = let rest = is_seen n ms in if n == m then true else rest

-- field and value in turn
unfoldable pub field_values : List (Str × Str) → List Str
field_values [] = []
field_values ((f, v) ∷ fs) = f ∷ v ∷ field_values fs

-- what a case of the `switch` leaves: should the rest of the callback run?
pub data Case (World : Type 0) : Type 0 where
  written : Seed World → Case World
  skip : Seed World → Case World

module _ {World Mr : Type 0} (r : Mini World Mr) (mr : Mr) where
  -- a call whose error is logged
  abbrev pub noted : Str → Str → Seed World → World × Option Str → Seed World
  noted call key s (w, none) = record s { world = w }
  noted call key s (w, some m) = record s { world = w; log = s.log ++ failed call key m ∷ [] }

  -- `db.Set`, whose error ends the callback
  abbrev pub set_case : Str → Seed World → World × Option Str → Case World
  set_case key s (w, none) = written (record s { world = w })
  set_case key s (w, some m) =
      skip (record s { world = w; log = s.log ++ failed (codes "set") key m ∷ [] })

  -- the loop of `db.ZAdd`
  unfoldable pub add_entries : ℕ → Str → List (ℕ × Str) → Seed World → Seed World
  add_entries db key [] s = s
  add_entries db key ((score, member) ∷ es) s =
      add_entries db key es (noted (codes "zadd") key s (r.z_add mr db key score member s.world))

  -- the `switch` of the callback
  unfoldable pub write_payload : ℕ → Str → Payload → Seed World → Case World
  unfolding add_entries field_values
  write_payload db key (string_object v) s = set_case key s (r.set mr db key v s.world)
  write_payload db key (list_object []) s = skip s
  write_payload db key (list_object (v ∷ vs)) s =
      written (noted (codes "rpush") key s (r.push mr db key (v ∷ vs) s.world))
  write_payload db key (set_object []) s = skip s
  write_payload db key (set_object (v ∷ vs)) s =
      written (noted (codes "sadd") key s (r.set_add mr db key (v ∷ vs) s.world))
  write_payload db key (hash_object []) s = skip s
  write_payload db key (hash_object (f ∷ fs)) s =
      written (record s { world = r.h_set mr db key (field_values (f ∷ fs)) s.world })
  write_payload db key (zset_object []) s = skip s
  write_payload db key (zset_object (e ∷ es)) s = written (add_entries db key (e ∷ es) s)
  write_payload db key stream_object s = skip (record s { log = s.log ++ skipped key ∷ [] })
  write_payload db key other_object s = skip s

  -- the time to live, where the key has one that is not past
  abbrev pub expire : ℕ → Str → Option ℤ → Seed World → Seed World
  expire db key none s = s
  expire db key (some ttl) s = record s { world = r.set_ttl mr db key ttl s.world }

  -- `exp != nil && exp.After(now)`
  abbrev pub ttl_of : ℤ → Option ℤ → Option ℤ
  ttl_of now none = none
  ttl_of now (some exp) = r.left_after exp now

  -- the statistics
  unfoldable pub count_key : ℕ → Seed World → Seed World
  unfolding is_seen
  count_key db s =
      if is_seen db s.seen
      then record s { keys = s.keys + 1 }
      else record s { keys = s.keys + 1; dbs = s.dbs + 1; seen = s.seen ++ db ∷ [] }

  -- the callback behind the `switch`
  unfoldable pub finish_key : ℤ → RdbObject → Case World → Seed World
  unfolding count_key
  finish_key now o (skip s) = s
  finish_key now o (written s) = count_key o.db (expire o.db o.key (ttl_of now o.expiration) s)

  -- the callback
  unfoldable pub seed_one : ℤ → RdbObject → Seed World → Seed World
  unfolding write_payload finish_key
  seed_one now o s = finish_key now o (write_payload o.db o.key o.payload s)

  -- the callback on all objects: it never stops the parser
  unfoldable pub seed_all : ℤ → List RdbObject → Seed World → Seed World
  unfolding seed_one
  seed_all now [] s = s
  seed_all now (o ∷ os) s = seed_all now os (seed_one now o s)

  -- what `seedFromRDB` starts from
  abbrev pub no_seed : World → Seed World
  no_seed w = record { world = w; keys = 0; dbs = 0; seen = []; log = [] }

  -- `seedFromRDB` behind `os.Open`: the world and the statistics, or the error
  unfoldable pub seed_opened : Dump ⊎ Str → World → Seed World × Option Str
  unfolding seed_all
  seed_opened (inr m) w = (no_seed w, some m)
  seed_opened (inl d) w = elim d.err [
    | none ↦ (seed_all (r.now w) d.objects (no_seed w), none)
    | some m ↦ (
      record (seed_all (r.now w) d.objects (no_seed w)) { keys = 0; dbs = 0 },
      some (codes "parse rdb: " ++ m),
    )
  ]

  -- `seedFromRDB`
  unfoldable pub seed_from_rdb : Str → World → Seed World × Option Str
  unfolding seed_opened
  seed_from_rdb path w = seed_opened (r.read_dump path) w
