-- ===== src/Startup/Shards/Served.antt =====
-- Which instances `startShards` serves, and what it fails on.
use spoofdb.Base.{
  ◌≡◌, refl, sym, ap, ◌∙◌, List, [], ◌∷◌, ◌++◌, Option, none, some, ◌⊎◌, inl, inr, append-nil,
  append_assoc, Bool-cases, if◌then◌else◌,
}
use spoofdb.Base.Int.{ℤ}
use spoofdb.Text.{Str, codes}
use spoofdb.Text.Dict.{lookup}
use spoofdb.Config.{Config, SqlInstance, RedisInstance}
use spoofdb.Engine.Sources.{EngineSource}
use spoofdb.Startup.Sources.{StartError, engine_for, sorted_keys}
use spoofdb.Startup.Shards.{
  Removed, Fatal, engine_failed, bind_failed, Shard, Started, shard_label, is_zero, unless_fatal,
  bound, with_engine, start_shard, start_named, start_shards, start_protocols,
}
use spoofdb.Startup.Shards.Engines.{AreMade, IsEngine, IsReason, IsGiven, engine_for-IsGiven}

-- an instance that is to be served, with its label
abbrev target_if : Str → Option SqlInstance → List (Str × SqlInstance)
target_if label none = []
target_if label (some inst) = if is_zero inst.port then [] else (label, inst) ∷ []

-- the instances with a port, in the order of some names
abbrev pub targets_of : Str → List (Str × SqlInstance) → List Str → List (Str × SqlInstance)
targets_of proto insts [] = []
targets_of proto insts (name ∷ names) =
    target_if (shard_label proto name) (lookup name insts) ++ targets_of proto insts names

abbrev pub protocol_targets : Str → List (Str × SqlInstance) → List (Str × SqlInstance)
protocol_targets proto insts = targets_of proto insts (sorted_keys insts)

-- the instances of a configuration that have a port: those of Postgres, of MySQL and of ClickHouse
abbrev pub all_targets : Config → List (Str × SqlInstance)
all_targets cfg =
    protocol_targets (codes "pg") cfg.spoof.postgres
    ++ (protocol_targets (codes "mysql") cfg.spoof.mysql
        ++ protocol_targets (codes "clickhouse") cfg.spoof.clickhouse)

module _ {World Ln E R : Type 0} (getenv : Str → Str)
    (load : World → List EngineSource → World × (E ⊎ Str)) (remove : World → Str → World × Removed)
    (listen : World → ℤ → World × (Ln ⊎ Str))
    (start_redis : World → List (Str × RedisInstance) → World × (List R ⊎ Str)) (cfg : Config) where
  -- a shard listens on the port of an instance, and has an engine of its sources
  abbrev pub IsShard : Str → SqlInstance → Shard Ln E → Type 0
  IsShard label inst s =
      (s.label ≡ label)
      × ((w : World) × ((listen w inst.port).1 ≡ inl s.listener))
      × IsEngine getenv load cfg inst.sources s.engine

  abbrev pub AreShards : List (Str × SqlInstance) → List (Shard Ln E) → Type 0
  AreShards [] [] = Unit
  AreShards [] (s ∷ ss) = ⊥
  AreShards (t ∷ ts) [] = ⊥
  AreShards (t ∷ ts) (s ∷ ss) = IsShard t.0 t.1 s × AreShards ts ss

  -- why an instance cannot be served
  pub data IsFailure (label : Str) (inst : SqlInstance) : Fatal → Type 0 where
    no_port :
        (w : World) (m : Str)
        → (listen w inst.port).1 ≡ inr m
        → IsFailure label inst (bind_failed label m)
    no_shard :
        (e : StartError)
        → IsReason getenv load cfg inst.sources e
        → IsFailure label inst (engine_failed label e)

  -- one of the instances cannot be served
  abbrev pub IsBlamed : List (Str × SqlInstance) → Fatal → Type 0
  IsBlamed [] e = ⊥
  IsBlamed (t ∷ ts) e = IsFailure t.0 t.1 e ⊎ IsBlamed ts e

  -- behind a step from `s`, these instances are served besides, or one of them cannot be
  abbrev pub Serves :
      List (Str × SqlInstance) → Started World Ln E → Started World Ln E ⊎ Fatal → Type 0
  Serves ts s (inl s') =
      (new : List (Shard Ln E)) × (s'.shards ≡ s.shards ++ new)
      × AreShards ts new
      × AreMade getenv load s'.engines
  Serves ts s (inr e) = IsBlamed ts e

  AreShards-append :
      (ts us : List (Str × SqlInstance)) (ss rs : List (Shard Ln E))
      → AreShards ts ss
      → AreShards us rs
      → AreShards (ts ++ us) (ss ++ rs)
  AreShards-append [] us [] rs h k = k
  AreShards-append [] us (s ∷ ss) rs h k = absurd h
  AreShards-append (t ∷ ts) us [] rs h k = absurd h
  AreShards-append (t ∷ ts) us (s ∷ ss) rs h k = (h.0, AreShards-append ts us ss rs h.1 k)

  IsBlamed-left :
      (ts us : List (Str × SqlInstance)) (e : Fatal) → IsBlamed ts e → IsBlamed (ts ++ us) e
  IsBlamed-left [] us e h = absurd h
  IsBlamed-left (t ∷ ts) us e (inl h) = inl h
  IsBlamed-left (t ∷ ts) us e (inr h) = inr (IsBlamed-left ts us e h)

  IsBlamed-right :
      (ts us : List (Str × SqlInstance)) (e : Fatal) → IsBlamed us e → IsBlamed (ts ++ us) e
  IsBlamed-right [] us e h = h
  IsBlamed-right (t ∷ ts) us e h = inr (IsBlamed-right ts us e h)

  Serves-further :
      (ts us : List (Str × SqlInstance)) (s s' : Started World Ln E)
      (y : Started World Ln E ⊎ Fatal)
      → Serves ts s (inl s')
      → Serves us s' y
      → Serves (ts ++ us) s y
  Serves-further ts us s s' (inr e) h k = IsBlamed-right ts us e k
  Serves-further ts us s s' (inl s'') (new, q, a, m) (more, q', a', m') = (
    new ++ more,
    q' ∙ (ap (λ z. z ++ more) q ∙ append_assoc s.shards new more),
    AreShards-append ts us new more a a',
    m',
  )

  unless_fatal-Serves :
      (ts us : List (Str × SqlInstance)) (s : Started World Ln E) (x : Started World Ln E ⊎ Fatal)
      (next : Started World Ln E → Started World Ln E ⊎ Fatal)
      → Serves ts s x
      → ((s' : Started World Ln E) → AreMade getenv load s'.engines → Serves us s' (next s'))
      → Serves (ts ++ us) s (unless_fatal getenv load remove listen start_redis x next)
  unless_fatal-Serves ts us s (inr e) next h k = IsBlamed-left ts us e h
  unless_fatal-Serves ts us s (inl s') next h k = Serves-further ts us s s' (next s') h (k s' h.3)

  bound-Serves :
      (label : Str) (inst : SqlInstance) (e : E) (s : Started World Ln E) (w : World)
      (x : World × (Ln ⊎ Str))
      → listen w inst.port ≡ x
      → AreMade getenv load s.engines
      → IsEngine getenv load cfg inst.sources e
      → Serves ((label, inst) ∷ []) s (bound getenv load remove listen start_redis label e s x)
  bound-Serves label inst e s w (w', inr m) q a i = inl (no_port w m (ap (λ z. z.1) q))
  bound-Serves label inst e s w (w', inl ln) q a i = (
    record { label = label; listener = ln; engine = e } ∷ [],
    refl,
    ((refl, (w, ap (λ z. z.1) q), i), tt),
    a,
  )

  with_engine-Serves :
      (label : Str) (inst : SqlInstance) (s : Started World Ln E)
      (x : World × List (Str × E) × (E ⊎ StartError))
      → IsGiven getenv load cfg inst.sources x
      → Serves
          ((label, inst) ∷ [])
          s
          (with_engine getenv load remove listen start_redis label inst.port s x)
  with_engine-Serves label inst s (w, engines, inr e) g = inl (no_shard e g)
  with_engine-Serves label inst s (w, engines, inl e) g =
      bound-Serves label inst e (record s { world = w; engines = engines }) w (listen w inst.port)
        refl g.0 g.1

  nothing_new : (s : Started World Ln E) → AreMade getenv load s.engines → Serves [] s (inl s)
  nothing_new s a = ([], sym (append-nil s.shards), tt, a)

  start_shard-Serves :
      (label : Str) (o : Option SqlInstance) (s : Started World Ln E)
      → AreMade getenv load s.engines
      → Serves
          (target_if label o)
          s
          (start_shard getenv load remove listen start_redis cfg label o s)
  unfolding start_shard
  start_shard-Serves label none s a = nothing_new s a
  start_shard-Serves label (some inst) s a = elim (Bool-cases (is_zero inst.port)) [
    | inl q ↦ rw (q, if◌then◌else◌) (nothing_new s a)
    | inr q ↦
        rw (q, if◌then◌else◌)
          (with_engine-Serves label inst s
            (engine_for getenv load cfg s.world s.engines inst.sources)
            (engine_for-IsGiven getenv load cfg inst.sources s.world s.engines a))
  ]

  start_named-Serves :
      (proto : Str) (insts : List (Str × SqlInstance)) (names : List Str) (s : Started World Ln E)
      → AreMade getenv load s.engines
      → Serves
          (targets_of proto insts names)
          s
          (start_named getenv load remove listen start_redis cfg proto insts names s)
  unfolding start_named
  start_named-Serves proto insts [] s a = nothing_new s a
  start_named-Serves proto insts (name ∷ names) s a =
      let label = shard_label proto name in
      unless_fatal-Serves (target_if label (lookup name insts)) (targets_of proto insts names) s
        (start_shard getenv load remove listen start_redis cfg label (lookup name insts) s)
        (start_named getenv load remove listen start_redis cfg proto insts names)
        (start_shard-Serves label (lookup name insts) s a) (start_named-Serves proto insts names)

  start_shards-Serves :
      (proto : Str) (insts : List (Str × SqlInstance)) (s : Started World Ln E)
      → AreMade getenv load s.engines
      → Serves
          (protocol_targets proto insts)
          s
          (start_shards getenv load remove listen start_redis cfg proto insts s)
  unfolding start_shards
  start_shards-Serves proto insts s a = start_named-Serves proto insts (sorted_keys insts) s a

  pub start_protocols-Serves :
      (s : Started World Ln E)
      → AreMade getenv load s.engines
      → Serves (all_targets cfg) s (start_protocols getenv load remove listen start_redis cfg s)
  unfolding start_protocols
  start_protocols-Serves s a =
      let shards = start_shards getenv load remove listen start_redis cfg in
      unless_fatal-Serves (protocol_targets (codes "pg") cfg.spoof.postgres)
        (protocol_targets (codes "mysql") cfg.spoof.mysql
          ++ protocol_targets (codes "clickhouse") cfg.spoof.clickhouse)
        s (shards (codes "pg") cfg.spoof.postgres s) _
        (start_shards-Serves (codes "pg") cfg.spoof.postgres s a)
        (λ s1 a1.
          unless_fatal-Serves (protocol_targets (codes "mysql") cfg.spoof.mysql)
            (protocol_targets (codes "clickhouse") cfg.spoof.clickhouse) s1
            (shards (codes "mysql") cfg.spoof.mysql s1)
            (shards (codes "clickhouse") cfg.spoof.clickhouse)
            (start_shards-Serves (codes "mysql") cfg.spoof.mysql s1 a1)
            (start_shards-Serves (codes "clickhouse") cfg.spoof.clickhouse))
