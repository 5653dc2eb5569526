-- ===== src/Redis/Seed/Counted.antt =====
-- What `seedFromRDB` counts.
use spoofdb.Base.{
  ℕ, ◌+◌, ◌≡◌, refl, sym, ap, ◌∙◌, Bool, true, false, List, [], ◌∷◌, ◌++◌, Option, none, some, inl,
  arith, length, if◌then◌else◌,
}
use spoofdb.Base.Int.{ℤ}
use spoofdb.Text.{Str, codes}
use spoofdb.Redis.Seed.{
  Payload, string_object, list_object, set_object, hash_object, zset_object, stream_object,
  other_object, RdbObject, Dump, Mini, Seed, Case, written, skip, is_seen, noted, set_case,
  add_entries, write_payload, expire, ttl_of, count_key, finish_key, seed_one, seed_all, no_seed,
  seed_opened, seed_from_rdb,
}

-- does an object make a key? an empty collection does not, nor does what is not supported
abbrev pub has_data : Payload → Bool
has_data (string_object v) = true
has_data (list_object []) = false
has_data (list_object (v ∷ vs)) = true
has_data (set_object []) = false
has_data (set_object (v ∷ vs)) = true
has_data (hash_object []) = false
has_data (hash_object (f ∷ fs)) = true
has_data (zset_object []) = false
has_data (zset_object (e ∷ es)) = true
has_data stream_object = false
has_data other_object = false

-- the databases of the objects that make a key, one for each key
abbrev pub dbs_of : List RdbObject → List ℕ
dbs_of [] = []
dbs_of (o ∷ os) = if has_data o.payload then o.db ∷ dbs_of os else dbs_of os

-- how many databases are in a list, besides those that have been seen
abbrev pub new_dbs : List ℕ → List ℕ → ℕ
new_dbs seen [] = 0
new_dbs seen (n ∷ ns) =
    let more = new_dbs (seen ++ n ∷ []) ns in
    let same = new_dbs seen ns in if is_seen n seen then same else more + 1

module _ {World Mr : Type 0} (r : Mini World Mr) (mr : Mr) where
  -- the statistics have not changed
  pub record IsStill (s t : Seed World) : Type 0 where
    pub keys_still : t.keys ≡ s.keys
    pub dbs_still : t.dbs ≡ s.dbs
    pub seen_still : t.seen ≡ s.seen

  -- a case of the `switch` for an object that makes a key, or does not
  abbrev IsCase : Bool → Seed World → Case World → Type 0
  IsCase b s (written t) = (b ≡ true) × IsStill s t
  IsCase b s (skip t) = (b ≡ false) × IsStill s t

  still : (s : Seed World) → IsStill s s
  still s = record { keys_still = refl; dbs_still = refl; seen_still = refl }

  noted-IsStill :
      (call key : Str) (s : Seed World) (x : World × Option Str)
      → IsStill s (noted r mr call key s x)
  noted-IsStill call key s (w, none) = record {
    keys_still = refl;
    dbs_still = refl;
    seen_still = refl;
  }
  noted-IsStill call key s (w, some m) = record {
    keys_still = refl;
    dbs_still = refl;
    seen_still = refl;
  }

  add_entries-IsStill :
      (db : ℕ) (key : Str) (es : List (ℕ × Str)) (s : Seed World)
      → IsStill s (add_entries r mr db key es s)
  unfolding add_entries
  add_entries-IsStill db key [] s = record {
    keys_still = refl;
    dbs_still = refl;
    seen_still = refl;
  }
  add_entries-IsStill db key ((score, member) ∷ es) s =
      let s' = noted r mr (codes "zadd") key s (r.z_add mr db key score member s.world) in
      let first = noted-IsStill (codes "zadd") key s (r.z_add mr db key score member s.world) in
      let rest = add_entries-IsStill db key es s' in
      record {
        keys_still = rest.keys_still ∙ first.keys_still;
        dbs_still = rest.dbs_still ∙ first.dbs_still;
        seen_still = rest.seen_still ∙ first.seen_still;
      }

  module _ (sets : (db : ℕ) (key v : Str) (w : World) → (r.set mr db key v w).1 ≡ none) where
    set_case-IsCase :
        (key : Str) (s : Seed World) (x : World × Option Str)
        → x.1 ≡ none
        → IsCase true s (set_case r mr key s x)
    set_case-IsCase key s (w, none) e =
        (refl, record { keys_still = refl; dbs_still = refl; seen_still = refl })
    set_case-IsCase key s (w, some m) e = absurd (cc)

    write_payload-IsCase :
        (db : ℕ) (key : Str) (p : Payload) (s : Seed World)
        → IsCase (has_data p) s (write_payload r mr db key p s)
    unfolding write_payload
    write_payload-IsCase db key (string_object v) s =
        set_case-IsCase key s (r.set mr db key v s.world) (sets db key v s.world)
    write_payload-IsCase db key (list_object []) s = (refl, still s)
    write_payload-IsCase db key (list_object (v ∷ vs)) s =
        (refl, noted-IsStill (codes "rpush") key s (r.push mr db key (v ∷ vs) s.world))
    write_payload-IsCase db key (set_object []) s = (refl, still s)
    write_payload-IsCase db key (set_object (v ∷ vs)) s =
        (refl, noted-IsStill (codes "sadd") key s (r.set_add mr db key (v ∷ vs) s.world))
    write_payload-IsCase db key (hash_object []) s = (refl, still s)
    write_payload-IsCase db key (hash_object (f ∷ fs)) s =
        (refl, record { keys_still = refl; dbs_still = refl; seen_still = refl })
    write_payload-IsCase db key (zset_object []) s = (refl, still s)
    write_payload-IsCase db key (zset_object (e ∷ es)) s =
        (refl, add_entries-IsStill db key (e ∷ es) s)
    write_payload-IsCase db key stream_object s =
        (refl, record { keys_still = refl; dbs_still = refl; seen_still = refl })
    write_payload-IsCase db key other_object s = (refl, still s)

    -- one object more
    abbrev Counts : Bool → ℕ → Seed World → Seed World → Type 0
    Counts b n s t =
        (t.keys ≡ s.keys + (if b then 1 else 0))
        × (t.dbs ≡ s.dbs + (if b then (if is_seen n s.seen then 0 else 1) else 0))
        × (t.seen ≡ (if b then (if is_seen n s.seen then s.seen else s.seen ++ n ∷ []) else s.seen))

    expire-IsStill :
        (db : ℕ) (key : Str) (o : Option ℤ) (s : Seed World) → IsStill s (expire r mr db key o s)
    expire-IsStill db key none s = still s
    expire-IsStill db key (some ttl) s = record {
      keys_still = refl;
      dbs_still = refl;
      seen_still = refl;
    }

    count_key-Counts :
        (n : ℕ) (s t : Seed World)
        → s.keys ≡ t.keys
        → s.dbs ≡ t.dbs
        → s.seen ≡ t.seen
        → Counts true n s (count_key r mr n t)
    unfolding count_key
    count_key-Counts n s t hk hd hs = ground arith

    finish_key-Counts :
        (now : ℤ) (o : RdbObject) (b : Bool) (s : Seed World) (c : Case World)
        → IsCase b s c
        → Counts b o.db s (finish_key r mr now o c)
    unfolding finish_key
    finish_key-Counts now o true s (skip t) (e, h) = absurd (cc)
    finish_key-Counts now o false s (skip t) (e, h) =
        (omega (arith, h.keys_still), omega (arith, h.dbs_still), h.seen_still)
    finish_key-Counts now o false s (written t) (e, h) = absurd (cc)
    finish_key-Counts now o true s (written t) (e, h) =
        let ttl = ttl_of r mr now o.expiration in
        let x = expire-IsStill o.db o.key ttl t in
        count_key-Counts o.db s (expire r mr o.db o.key ttl t) (sym (x.keys_still ∙ h.keys_still))
          (sym (x.dbs_still ∙ h.dbs_still)) (sym (x.seen_still ∙ h.seen_still))

    seed_one-Counts :
        (now : ℤ) (o : RdbObject) (s : Seed World)
        → Counts (has_data o.payload) o.db s (seed_one r mr now o s)
    unfolding seed_one
    seed_one-Counts now o s =
        finish_key-Counts now o (has_data o.payload) s (write_payload r mr o.db o.key o.payload s)
          (write_payload-IsCase o.db o.key o.payload s)

    -- the counts behind an object, with those of the objects that follow
    one_more :
        (b : Bool) (n : ℕ) (ns : List ℕ) (s t : Seed World) (keys dbs : ℕ)
        → Counts b n s t
        → keys ≡ t.keys + length ns
        → dbs ≡ t.dbs + new_dbs t.seen ns
        → (keys ≡ s.keys + length (if b then n ∷ ns else ns))
          × (dbs ≡ s.dbs + new_dbs s.seen (if b then n ∷ ns else ns))
    one_more false n ns s t keys dbs (ck, cd, cs) hk hd =
        (omega arith, omega (arith, ap (λ z. new_dbs z ns) cs))
    one_more true n ns s t keys dbs (ck, cd, cs) hk hd =
        (omega arith, one_db (is_seen n s.seen) cd cs)
      where
        one_db :
            (b : Bool)
            → t.dbs ≡ s.dbs + (if b then 0 else 1)
            → t.seen ≡ (if b then s.seen else s.seen ++ n ∷ [])
            → dbs ≡ s.dbs + (if b then new_dbs s.seen ns else new_dbs (s.seen ++ n ∷ []) ns + 1)
        one_db true e f = omega (arith, ap (λ z. new_dbs z ns) f)
        one_db false e f = omega (arith, ap (λ z. new_dbs z ns) f)

    seed_all_counts :
        (now : ℤ) (os : List RdbObject) (s : Seed World)
        → ((seed_all r mr now os s).keys ≡ s.keys + length (dbs_of os))
          × ((seed_all r mr now os s).dbs ≡ s.dbs + new_dbs s.seen (dbs_of os))
    unfolding seed_all
    seed_all_counts now [] s = (omega arith, omega arith)
    seed_all_counts now (o ∷ os) s =
        let rest = seed_all_counts now os (seed_one r mr now o s) in
        one_more (has_data o.payload) o.db (dbs_of os) s (seed_one r mr now o s)
          (seed_all r mr now os (seed_one r mr now o s)).keys
          (seed_all r mr now os (seed_one r mr now o s)).dbs (seed_one-Counts now o s) rest.0 rest.1

    -- If a dump is parsed to its end and no string is refused, the statistics count the objects that
    -- make a key, and the different databases of these: empty collections and streams make none.
    pub seed_from_rdb_counts :
        (path : Str) (w : World) (d : Dump)
        → r.read_dump path ≡ inl d
        → d.err ≡ none
        → ((seed_from_rdb r mr path w).0.keys ≡ length (dbs_of d.objects))
          × ((seed_from_rdb r mr path w).0.dbs ≡ new_dbs [] (dbs_of d.objects))
          × ((seed_from_rdb r mr path w).1 ≡ none)
    unfolding seed_from_rdb seed_opened
    seed_from_rdb_counts path w d e n =
        let counts = seed_all_counts (r.now w) d.objects (no_seed r mr w) in
        rw (e, seed_opened, n) (omega (arith, counts.0), omega (arith, counts.1), refl)
