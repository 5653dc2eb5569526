-- ===== src/Startup/Instances/Served.antt =====
-- Which instances the flags give.
use spoofdb.Base.{
  ◌≡◌, refl, sym, ◌∙◌, ap, Bool, List, [], ◌∷◌, ◌++◌, map, ◌⊎◌, inl, inr, arith, append_assoc,
  append-nil,
}
use spoofdb.Base.Int.{ℤ}
use spoofdb.Text.{Str, Unicode}
use spoofdb.Config.{Config, RedisInstance}
use spoofdb.Startup.Flags.{
  FlagError, Given, sql, dump, parse_source, Protocol, postgres, mysql, clickhouse, redis,
  parse_spoof,
}
use spoofdb.Startup.Instances.{
  Gathered, Made, gather_one, sql_instance, place, nothing_gathered, nothing_made, finish, and_then,
  place_all, gather, config_of, config_from_flags,
}
use spoofdb.Startup.Instances.Labels.{numbered, zip_dumps, port_if}
use spoofdb.Startup.Instances.Placed.{made_of, placed}

module _ ⦃u : Unicode⦄ where
  -- the ports of the targets of one protocol
  abbrev pub ports : Protocol → List Str → List ℤ
  ports p [] = []
  ports p (spec ∷ specs) = port_if p (parse_spoof spec) ++ ports p specs

  -- what the loop over some targets makes
  abbrev IsMade : List Str → List Str → Type 0
  IsMade ds specs =
      (ps ms cs rs : List ℤ) (b : Made)
      → place_all ds specs (made_of ds ps ms cs rs) ≡ inl b
      → b
        ≡ made_of ds (ps ++ ports postgres specs) (ms ++ ports mysql specs)
            (cs ++ ports clickhouse specs) (rs ++ ports redis specs)

  behind_place :
      (ds : List Str) (spec : Str) (specs : List Str) (r : Protocol × ℤ) (ps ms cs rs : List ℤ)
      (q : Made ⊎ FlagError) (b : Made)
      → IsMade ds specs
      → place ds spec r.0 r.1 (made_of ds ps ms cs rs) ≡ q
      → and_then q (λ b'. place_all ds specs b') ≡ inl b
      → b
        ≡ made_of ds
            (ps ++ (port_if postgres (inl r) ++ ports postgres specs))
            (ms ++ (port_if mysql (inl r) ++ ports mysql specs))
            (cs ++ (port_if clickhouse (inl r) ++ ports clickhouse specs))
            (rs ++ (port_if redis (inl r) ++ ports redis specs))
  behind_place ds spec specs r ps ms cs rs (inr e) b ih y h = cc
  behind_place ds spec specs r ps ms cs rs (inl b') b ih y h =
      rw
        (
          ← append_assoc ps (port_if postgres (inl r)) (ports postgres specs),
          ← append_assoc ms (port_if mysql (inl r)) (ports mysql specs),
          ← append_assoc cs (port_if clickhouse (inl r)) (ports clickhouse specs),
          ← append_assoc rs (port_if redis (inl r)) (ports redis specs),
        )
        (ih _ _ _ _ b (ap (place_all ds specs) (sym (placed ds spec r ps ms cs rs b' y)) ∙ h))

  behind_parse :
      (ds : List Str) (spec : Str) (specs : List Str) (r : (Protocol × ℤ) ⊎ FlagError)
      (ps ms cs rs : List ℤ) (b : Made)
      → IsMade ds specs
      → and_then r (λ t.
        and_then (place ds spec t.0 t.1 (made_of ds ps ms cs rs)) (λ b'. place_all ds specs b'))
        ≡ inl b
      → b
        ≡ made_of ds
            (ps ++ (port_if postgres r ++ ports postgres specs))
            (ms ++ (port_if mysql r ++ ports mysql specs))
            (cs ++ (port_if clickhouse r ++ ports clickhouse specs))
            (rs ++ (port_if redis r ++ ports redis specs))
  behind_parse ds spec specs (inr e) ps ms cs rs b ih h = cc
  behind_parse ds spec specs (inl r) ps ms cs rs b ih h =
      behind_place ds spec specs r ps ms cs rs _ b ih refl h

  place_all-IsMade : (ds specs : List Str) → IsMade ds specs
  unfolding place_all
  place_all-IsMade ds [] ps ms cs rs b h =
      rw (append-nil ps, append-nil ms, append-nil cs, append-nil rs) (cc)
  place_all-IsMade ds (spec ∷ specs) ps ms cs rs b h =
      behind_parse ds spec specs (parse_spoof spec) ps ms cs rs b (place_all-IsMade ds specs) h

  module _ (stat : Str → Bool ⊎ Str) where
    abbrev dump_if : Str → Given ⊎ FlagError → List Str
    dump_if spec (inl dump) = spec ∷ []
    dump_if spec _ = []

    -- the sources that are dumps for Redis
    abbrev pub dumps_of : List Str → List Str
    dumps_of [] = []
    dumps_of (spec ∷ specs) = dump_if spec (parse_source stat spec) ++ dumps_of specs

    gathered :
        (spec : Str) (specs : List Str) (r : Given ⊎ FlagError) (g g' : Gathered)
        → ((f : Gathered) → gather stat specs f ≡ inl g' → g'.dumps ≡ f.dumps ++ dumps_of specs)
        → and_then r (λ given. gather stat specs (gather_one spec given g)) ≡ inl g'
        → g'.dumps ≡ g.dumps ++ (dump_if spec r ++ dumps_of specs)
    unfolding gather_one
    gathered spec specs (inr e) g g' ih h = cc
    gathered spec specs (inl dump) g g' ih h =
        ih _ h ∙ append_assoc g.dumps (spec ∷ []) (dumps_of specs)
    gathered spec specs (inl (sql src)) g g' ih h = ih _ h

    dumps-gather :
        (specs : List Str) (g g' : Gathered)
        → gather stat specs g ≡ inl g'
        → g'.dumps ≡ g.dumps ++ dumps_of specs
    unfolding gather
    dumps-gather [] g g' h = rw (append-nil g.dumps) (cc)
    dumps-gather (spec ∷ specs) g g' h =
        gathered spec specs (parse_source stat spec) g g' (λ f. dumps-gather specs f g') h

    made_of-finish :
        (g : Gathered) (b : Made) (m : List (Str × RedisInstance)) (cfg : Config)
        → b.redis_map ≡ m
        → finish g b ≡ inl cfg
        → (cfg.spoof ≡ b.spoof) × (cfg.redis ≡ b.redis_map)
    unfolding finish
    made_of-finish g b [] cfg y h = ground arith
    made_of-finish g b (e ∷ es) cfg y h = ground arith

    -- what the targets become
    abbrev pub IsServed : List Str → List Str → Config → Type 0
    IsServed source_specs spoof_specs cfg =
        (cfg.spoof.postgres ≡ numbered 0 (map sql_instance (ports postgres spoof_specs)))
        × (cfg.spoof.mysql ≡ numbered 0 (map sql_instance (ports mysql spoof_specs)))
        × (cfg.spoof.clickhouse ≡ numbered 0 (map sql_instance (ports clickhouse spoof_specs)))
        × (cfg.redis ≡ numbered 0 (zip_dumps (ports redis spoof_specs) (dumps_of source_specs)))

    IsServed-made :
        (source_specs specs : List Str) (g : Gathered) (cfg : Config) (q : Made ⊎ FlagError)
        → g.dumps ≡ dumps_of source_specs
        → place_all g.dumps specs nothing_made ≡ q
        → and_then q (λ b. finish g b) ≡ inl cfg
        → IsServed source_specs specs cfg
    IsServed-made source_specs specs g cfg (inr e) d y h = cc
    IsServed-made source_specs specs g cfg (inl b) d y h =
        let m = place_all-IsMade g.dumps specs [] [] [] [] b y in
        let (z, w) = made_of-finish g b b.redis_map cfg refl h in
        (
          ap (λ x. x.postgres) z ∙ ap (λ x. x.spoof.postgres) m,
          ap (λ x. x.mysql) z ∙ ap (λ x. x.spoof.mysql) m,
          ap (λ x. x.clickhouse) z ∙ ap (λ x. x.spoof.clickhouse) m,
          w ∙ ap (λ x. x.redis_map) m ∙ ap (λ ds. numbered 0 (zip_dumps (ports redis specs) ds)) d,
        )

    IsServed-gathered :
        (source_specs specs : List Str) (cfg : Config) (q : Gathered ⊎ FlagError)
        → gather stat source_specs nothing_gathered ≡ q
        → and_then q (λ g. config_of stat specs g) ≡ inl cfg
        → IsServed source_specs specs cfg
    IsServed-gathered source_specs specs cfg (inr e) y h = cc
    IsServed-gathered source_specs specs cfg (inl g) y h =
        IsServed-made source_specs specs g cfg _ (dumps-gather source_specs nothing_gathered g y)
          refl h

    -- Each -spoof target of a configuration that is made of flags becomes an instance of its own: the
    -- targets of a protocol are named shard0, shard1, … in the order of the flags, with the ports that
    -- were given, none of them takes the place of another, and the instances of Redis get the dumps
    -- in the order of the -source flags.
    pub config_from_flags-IsServed :
        (source_specs spoof_specs : List Str) (cfg : Config)
        → config_from_flags stat source_specs spoof_specs ≡ inl cfg
        → IsServed source_specs spoof_specs cfg
    unfolding config_from_flags
    config_from_flags-IsServed [] ts cfg h = cc
    config_from_flags-IsServed (s ∷ ss) [] cfg h = cc
    config_from_flags-IsServed (s ∷ ss) (t ∷ ts) cfg h =
        IsServed-gathered (s ∷ ss) (t ∷ ts) cfg _ refl h
