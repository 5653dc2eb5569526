-- ===== src/Redis/Seed/Running.antt =====
-- Seeding a store starts and closes none.
use spoofdb.Base.{
  ℕ, Bool, false, not, ◌&&◌, ◌||◌, ◌≡◌, refl, ap, ◌∙◌, List, [], ◌∷◌, Option, none, some, ◌⊎◌, inl,
  inr, arith, Option-cases,
}
use spoofdb.Base.Int.{ℤ}
use spoofdb.Text.{Str, codes}
use spoofdb.Redis.Seed.{
  Payload, string_object, list_object, set_object, hash_object, zset_object, stream_object,
  other_object, RdbObject, Dump, Mini, Seed, Case, written, skip, noted, set_case, add_entries,
  field_values, write_payload, expire, ttl_of, count_key, finish_key, seed_one, seed_all, no_seed,
  seed_opened, seed_from_rdb,
}

-- Which servers run, where `is` tells one server from another: `StartAddr` gives a server that did
-- not run, and starts it and no other, where it succeeds, `Close` ends its server and no other, if
-- it runs, and no command on a store starts or ends any.
pub record IsWatched {World Mr : Type 0} (r : Mini World Mr) (running : World → Mr → Bool)
    (is : Mr → Mr → Bool) : Type 0 where
  pub start_done :
      (w : World) (port : ℤ) (mr : Mr)
      → (r.start_addr w port).1 ≡ inl mr
      → (m : Mr)
      → ((is m mr && running w m) ≡ false)
        × (running (r.start_addr w port).0 m ≡ (is m mr || running w m))
  pub start_refused :
      (w : World) (port : ℤ) (m : Str)
      → (r.start_addr w port).1 ≡ inr m
      → running (r.start_addr w port).0 ≡ running w
  pub closed : (w : World) (mr m : Mr) → running (r.close w mr) m ≡ (not (is m mr) && running w m)
  pub set_keeps :
      (mr : Mr) (db : ℕ) (k v : Str) (w : World) → running (r.set mr db k v w).0 ≡ running w
  pub push_keeps :
      (mr : Mr) (db : ℕ) (k : Str) (vs : List Str) (w : World)
      → running (r.push mr db k vs w).0 ≡ running w
  pub set_add_keeps :
      (mr : Mr) (db : ℕ) (k : Str) (vs : List Str) (w : World)
      → running (r.set_add mr db k vs w).0 ≡ running w
  pub h_set_keeps :
      (mr : Mr) (db : ℕ) (k : Str) (vs : List Str) (w : World)
      → running (r.h_set mr db k vs w) ≡ running w
  pub z_add_keeps :
      (mr : Mr) (db : ℕ) (k : Str) (score : ℕ) (m : Str) (w : World)
      → running (r.z_add mr db k score m w).0 ≡ running w
  pub set_ttl_keeps :
      (mr : Mr) (db : ℕ) (k : Str) (ttl : ℤ) (w : World)
      → running (r.set_ttl mr db k ttl w) ≡ running w

module _ {World Mr : Type 0} (r : Mini World Mr) (running : World → Mr → Bool) (is : Mr → Mr → Bool)
    (c : IsWatched r running is) (mr : Mr) where
  -- the servers run that run in a world
  abbrev RunsAs : World → Seed World → Type 0
  RunsAs w s = running s.world ≡ running w

  noted_runs :
      (call key : Str) (s : Seed World) (x : World × Option Str)
      → running x.0 ≡ running s.world
      → RunsAs s.world (noted r mr call key s x)
  noted_runs call key s (w, none) h = h
  noted_runs call key s (w, some m) h = h

  add_entries_runs :
      (db : ℕ) (key : Str) (es : List (ℕ × Str)) (s : Seed World)
      → RunsAs s.world (add_entries r mr db key es s)
  unfolding add_entries
  add_entries_runs db key [] s = refl
  add_entries_runs db key ((score, m) ∷ es) s =
      add_entries_runs db key es
        (noted r mr (codes "zadd") key s (r.z_add mr db key score m s.world))
      ∙ noted_runs (codes "zadd") key s (r.z_add mr db key score m s.world)
          (c.z_add_keeps mr db key score m s.world)

  -- the same behind a case of the `switch`
  abbrev CaseRunsAs : World → Case World → Type 0
  CaseRunsAs w (written s) = RunsAs w s
  CaseRunsAs w (skip s) = RunsAs w s

  set_case_runs :
      (key : Str) (s : Seed World) (x : World × Option Str)
      → running x.0 ≡ running s.world
      → CaseRunsAs s.world (set_case r mr key s x)
  set_case_runs key s (w, none) h = h
  set_case_runs key s (w, some m) h = h

  write_payload_runs :
      (db : ℕ) (key : Str) (p : Payload) (s : Seed World)
      → CaseRunsAs s.world (write_payload r mr db key p s)
  unfolding write_payload
  write_payload_runs db key (string_object v) s =
      set_case_runs key s (r.set mr db key v s.world) (c.set_keeps mr db key v s.world)
  write_payload_runs db key (list_object []) s = refl
  write_payload_runs db key (list_object (v ∷ vs)) s =
      noted_runs (codes "rpush") key s (r.push mr db key (v ∷ vs) s.world)
        (c.push_keeps mr db key (v ∷ vs) s.world)
  write_payload_runs db key (set_object []) s = refl
  write_payload_runs db key (set_object (v ∷ vs)) s =
      noted_runs (codes "sadd") key s (r.set_add mr db key (v ∷ vs) s.world)
        (c.set_add_keeps mr db key (v ∷ vs) s.world)
  write_payload_runs db key (hash_object []) s = refl
  write_payload_runs db key (hash_object (f ∷ fs)) s =
      c.h_set_keeps mr db key (field_values (f ∷ fs)) s.world
  write_payload_runs db key (zset_object []) s = refl
  write_payload_runs db key (zset_object (e ∷ es)) s = add_entries_runs db key (e ∷ es) s
  write_payload_runs db key stream_object s = refl
  write_payload_runs db key other_object s = refl

  expire_runs :
      (db : ℕ) (key : Str) (o : Option ℤ) (s : Seed World) → RunsAs s.world (expire r mr db key o s)
  expire_runs db key none s = refl
  expire_runs db key (some ttl) s = c.set_ttl_keeps mr db key ttl s.world

  count_key_runs : (db : ℕ) (s : Seed World) → (count_key r mr db s).world ≡ s.world
  unfolding count_key
  count_key_runs db s = ground arith

  finish_key_runs :
      (now : ℤ) (o : RdbObject) (w : World) (x : Case World)
      → CaseRunsAs w x
      → RunsAs w (finish_key r mr now o x)
  unfolding finish_key
  finish_key_runs now o w (skip s) h = h
  finish_key_runs now o w (written s) h =
      ap running (count_key_runs o.db (expire r mr o.db o.key (ttl_of r mr now o.expiration) s))
      ∙ (expire_runs o.db o.key (ttl_of r mr now o.expiration) s ∙ h)

  seed_all_runs :
      (now : ℤ) (os : List RdbObject) (s : Seed World) → RunsAs s.world (seed_all r mr now os s)
  unfolding seed_all seed_one
  seed_all_runs now [] s = refl
  seed_all_runs now (o ∷ os) s =
      seed_all_runs now os (seed_one r mr now o s)
      ∙ finish_key_runs now o s.world (write_payload r mr o.db o.key o.payload s)
          (write_payload_runs o.db o.key o.payload s)

  seed_opened_runs : (x : Dump ⊎ Str) (w : World) → RunsAs w (seed_opened r mr x w).0
  unfolding seed_opened
  seed_opened_runs (inr m) w = refl
  seed_opened_runs (inl d) w = elim (Option-cases d.err) [
    | inl q ↦ rw (q, seed_opened) (seed_all_runs (r.now w) d.objects (no_seed r mr w))
    | inr (m, q) ↦ rw (q, seed_opened) (seed_all_runs (r.now w) d.objects (no_seed r mr w))
  ]

  pub seed_from_rdb_runs : (path : Str) (w : World) → RunsAs w (seed_from_rdb r mr path w).0
  unfolding seed_from_rdb
  seed_from_rdb_runs path w = seed_opened_runs (r.read_dump path) w
