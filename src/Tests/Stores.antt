-- ===== src/Tests/Stores.antt =====
-- Starting two Redis instances, one of them from a dump, and seeding.
use spoofdb.Base.{
  ℕ, ◌+◌, ◌≡◌, refl, ◌⊎◌, Bool, true, false, not, ◌&&◌, ◌||◌, ltb, List, [], ◌∷◌, map, none, some,
  inl, inr, arith, if◌then◌else◌, ◌==◌, length,
}
use spoofdb.Base.Int.{ℤ, pos, negsuc}
use spoofdb.Text.{Str, codes, same}
use spoofdb.Config.{RedisInstance}
use spoofdb.Redis.Seed.{
  string_object, list_object, stream_object, Dump, Mini, seed_from_rdb, is_seen,
}
use spoofdb.Redis.Seed.Counted.{dbs_of, new_dbs, seed_from_rdb_counts}
use spoofdb.Redis.Seed.Running.{IsWatched}
use spoofdb.Redis.Start.{start}
use spoofdb.Redis.Start.Closed.{IsStarted, start-IsStarted}

abbrev dump : Dump
dump = record {
  objects =
      record { key = codes "a"; db = 0; payload = string_object (codes "1"); expiration = none }
      ∷ record { key = codes "b"; db = 3; payload = list_object []; expiration = none }
      ∷ record {
        key = codes "c";
        db = 3;
        payload = list_object (codes "x" ∷ []);
        expiration = some (pos 9);
      }
      ∷ record { key = codes "d"; db = 5; payload = stream_object; expiration = none }
      ∷ record { key = codes "e"; db = 0; payload = string_object []; expiration = none }
      ∷ [];
  err = none;
}

-- a port that cannot be bound
abbrev is_taken : ℤ → Bool
is_taken (pos n) = n == 1
is_taken (negsuc n) = true

-- a server is its number; a world is the next number, and which servers were not closed
abbrev World : Type 0
World = ℕ × (ℕ → Bool)

abbrev running : World → ℕ → Bool
running w m = ltb m w.0 && w.1 m

abbrev is : ℕ → ℕ → Bool
is a b = a == b

abbrev start_at : Bool → World → World × (ℕ ⊎ Str)
start_at true w = (w, inr (codes "in use"))
start_at false w = ((w.0 + 1, λ m. m == w.0 || w.1 m), inl w.0)

-- every dump but one is missing
abbrev mini : Mini World ℕ
mini = record {
  start_addr = λ w port. start_at (is_taken port) w;
  close = λ w mr. (w.0, λ m. not (m == mr) && w.1 m);
  set = λ mr db k v w. (w, none);
  push = λ mr db k vs w. (w, none);
  set_add = λ mr db k vs w. (w, none);
  h_set = λ mr db k vs w. w;
  z_add = λ mr db k score m w. (w, none);
  set_ttl = λ mr db k ttl w. w;
  read_dump = λ path. if same path (codes "d.rdb") then inl dump else inr (codes "no such file");
  now = λ w. pos 0;
  left_after = λ exp now. some exp;
}

started_runs :
    (taken : Bool) (w : World) (mr m : ℕ)
    → (start_at taken w).1 ≡ inl mr
    → ((m == mr && running w m) ≡ false)
      × (running (start_at taken w).0 m ≡ (m == mr || running w m))
started_runs true w mr m e = absurd (cc)
started_runs false w mr m e = let q : w.0 ≡ mr = cc in (ground arith, ground arith)

refused_runs :
    (taken : Bool) (w : World) (e : Str)
    → (start_at taken w).1 ≡ inr e
    → running (start_at taken w).0 ≡ running w
refused_runs true w e q = refl
refused_runs false w e q = absurd (cc)

mini-IsWatched : IsWatched mini running is
mini-IsWatched = record {
  start_done = λ w port mr e m. started_runs (is_taken port) w mr m e;
  start_refused = λ w port m e. refused_runs (is_taken port) w m e;
  closed = λ w mr m. ground arith;
  set_keeps = λ mr db k v w. refl;
  push_keeps = λ mr db k vs w. refl;
  set_add_keeps = λ mr db k vs w. refl;
  h_set_keeps = λ mr db k vs w. refl;
  z_add_keeps = λ mr db k score m w. refl;
  set_ttl_keeps = λ mr db k ttl w. refl;
}

abbrev instances : List (Str × RedisInstance)
instances =
    (codes "cache", record { port = pos 6379; dump = codes "d.rdb" })
    ∷ (codes "queue", record { port = pos 6380; dump = codes "missing.rdb" })
    ∷ []

abbrev nothing : World
nothing = (0, λ m. false)

start-IsStarted_example :
    IsStarted running is (running nothing) (map (λ e. e.0) instances) (start mini instances nothing)
start-IsStarted_example = start-IsStarted mini running is mini-IsWatched instances nothing

-- the second dump is missing, so both servers are closed again
start_test : running (start mini instances nothing).0 0 ≡ false
unfolding start same
start_test = refl

seed_from_rdb_counts_example :
    ((seed_from_rdb mini 0 (codes "d.rdb") nothing).0.keys ≡ length (dbs_of dump.objects))
    × ((seed_from_rdb mini 0 (codes "d.rdb") nothing).0.dbs ≡ new_dbs [] (dbs_of dump.objects))
    × ((seed_from_rdb mini 0 (codes "d.rdb") nothing).1 ≡ none)
unfolding same
seed_from_rdb_counts_example =
    seed_from_rdb_counts mini 0 (λ db key v w. refl) (codes "d.rdb") nothing dump refl refl

dbs_test : new_dbs [] (dbs_of dump.objects) ≡ 2
unfolding is_seen
dbs_test = refl
