-- ===== src/Redis/Start/Closed.antt =====
-- Which servers `Start` leaves running.
use mathlib.Core.Path.{subst}
use spoofdb.Base.{
  Bool, false, not, ◌&&◌, ◌||◌, ◌≡◌, refl, sym, ap, ◌∙◌, List, [], ◌∷◌, ◌++◌, map, Option, none,
  some, ◌⊎◌, inl, inr, arith, append-nil, append_assoc, Bool-cases, if◌then◌else◌,
}
use spoofdb.Text.{Str, same}
use spoofdb.Config.{RedisInstance}
use spoofdb.Redis.Seed.{Mini, Seed, seed_from_rdb}
use spoofdb.Redis.Seed.Running.{IsWatched, seed_from_rdb_runs}
use spoofdb.Redis.Start.{
  Instance, RedisError, ListenLine, seeded, started, start_instance, close_all, unless_started,
  start_from, start,
}

abbrev names_of : {Mr : Type 0} → List (Instance Mr) → List Str
names_of = map (λ i. i.name)

-- is it the server of one of these instances?
abbrev pub among : {Mr : Type 0} → (Mr → Mr → Bool) → List (Instance Mr) → Mr → Bool
among is [] m = false
among is (i ∷ started) m = is m i.mr || among is started m

-- behind `Start`, from a world in which the servers of `base` run: an instance for each name, whose
-- servers did not run, and now they and those of `base` do; or an error, and those of `base` run
abbrev pub IsStarted :
    {World Mr : Type 0}
    → (World → Mr → Bool)
    → (Mr → Mr → Bool)
    → (Mr → Bool)
    → List Str
    → World × (List (Instance Mr) ⊎ RedisError)
    → Type 0
IsStarted running is base names (w, inl started) =
    ((m : _)
      → (running w m ≡ (among is started m || base m)) × ((among is started m && base m) ≡ false))
    × (names_of started ≡ names)
IsStarted running is base names (w, inr e) = (m : _) → running w m ≡ base m

module _ {World Mr : Type 0} (r : Mini World Mr) (running : World → Mr → Bool) (is : Mr → Mr → Bool)
    (c : IsWatched r running is) where
  -- one server more and its name, or none
  abbrev HasOneMore : (Mr → Bool) → Str → World × (Instance Mr × ListenLine ⊎ RedisError) → Type 0
  HasOneMore base name (w, inl (i, line)) =
      ((m : Mr) → ((is m i.mr && base m) ≡ false) × (running w m ≡ (is m i.mr || base m)))
      × (i.name ≡ name)
  HasOneMore base name (w, inr e) = (m : Mr) → running w m ≡ base m

  seeded-HasOneMore :
      (base : Mr → Bool) (name : Str) (cfg : RedisInstance) (mr : Mr) (x : Seed World × Option Str)
      → ((m : Mr) → ((is m mr && base m) ≡ false) × (running x.0.world m ≡ (is m mr || base m)))
      → HasOneMore base name (seeded r name cfg mr x)
  unfolding seeded
  seeded-HasOneMore base name cfg mr (s, none) h = (h, refl)
  seeded-HasOneMore base name cfg mr (s, some e) h =
      λ m. ground (arith, c.closed s.world mr m, (h m).0, (h m).1)

  started-HasOneMore :
      (name : Str) (cfg : RedisInstance) (w : World) (x : World × (Mr ⊎ Str))
      → r.start_addr w cfg.port ≡ x
      → HasOneMore (running w) name (started r name cfg x)
  unfolding started
  started-HasOneMore name cfg w (w', inr e) q = λ m.
      ap (λ z. running z.0 m) (sym q)
      ∙ ap (λ f. f m) (c.start_refused w cfg.port e (ap (λ z. z.1) q))
  started-HasOneMore name cfg w (w', inl mr) q =
      let up : (m : Mr)
          → ((is m mr && running w m) ≡ false) × (running w' m ≡ (is m mr || running w m)) =
        λ m.
          let (new, more) = c.start_done w cfg.port mr (ap (λ z. z.1) q) m in
          (new, ap (λ z. running z.0 m) (sym q) ∙ more) in
      elim (Bool-cases (same cfg.dump [])) [
        | inl y ↦ rw (y, started) (up, refl)
        | inr n ↦
            rw (n, started, if◌then◌else◌)
              (seeded-HasOneMore (running w) name cfg mr (seed_from_rdb r mr cfg.dump w') (λ m. (
                (up m).0,
                ap (λ f. f m) (seed_from_rdb_runs r running is c mr cfg.dump w') ∙ (up m).1,
              )))
      ]

  start_instance-HasOneMore :
      (name : Str) (cfg : RedisInstance) (w : World)
      → HasOneMore (running w) name (start_instance r name cfg w)
  unfolding start_instance
  start_instance-HasOneMore name cfg w =
      started-HasOneMore name cfg w (r.start_addr w cfg.port) refl

  close_all_runs :
      (done : List (Instance Mr)) (w : World) (m : Mr)
      → running (close_all r done w) m ≡ (not (among is done m) && running w m)
  unfolding close_all
  close_all_runs [] w m = refl
  close_all_runs (i ∷ done) w m =
      ground (arith, close_all_runs done (r.close w i.mr) m, c.closed w i.mr m)

  names_of-append : (is js : List (Instance Mr)) → names_of (is ++ js) ≡ names_of is ++ names_of js
  names_of-append [] js = refl
  names_of-append (i ∷ is) js = ap (λ z. i.name ∷ z) (names_of-append is js)

  among-append :
      (done : List (Instance Mr)) (i : Instance Mr) (m : Mr)
      → among is (done ++ i ∷ []) m ≡ (among is done m || is m i.mr)
  among-append [] i m = ground arith
  among-append (j ∷ done) i m = ground (arith, among-append done i m)

  -- the servers that run are those of `base` and of the instances that were started
  abbrev Runs : (Mr → Bool) → List (Instance Mr) → World → Type 0
  Runs base done w =
      (m : Mr) → (running w m ≡ (among is done m || base m)) × ((among is done m && base m) ≡ false)

  unless_started-IsStarted :
      (base : Mr → Bool) (name : Str) (names : List Str) (done : List (Instance Mr)) (w : World)
      (x : World × (Instance Mr × ListenLine ⊎ RedisError))
      (next : List (Instance Mr) → World → World × (List (Instance Mr) ⊎ RedisError))
      → Runs base done w
      → HasOneMore (running w) name x
      → ((i : Instance Mr) (w' : World)
          → i.name ≡ name
          → Runs base (done ++ i ∷ []) w'
          → IsStarted running is base names (next (done ++ i ∷ []) w'))
      → IsStarted running is base names (unless_started r done x next)
  unless_started-IsStarted base name names done w (w', inr e) next h k next_holds =
      λ m. ground (arith, close_all_runs done w' m, (h m).0, (h m).1, k m)
  unless_started-IsStarted base name names done w (w', inl (i, line)) next h k next_holds =
      next_holds i w' k.1 (λ m. (
        ground (arith, among-append done i m, (h m).0, (k.0 m).1),
        ground (arith, among-append done i m, (h m).0, (h m).1, (k.0 m).0),
      ))

  start_from-IsStarted :
      (base : Mr → Bool) (done : List (Instance Mr)) (instances : List (Str × RedisInstance))
      (w : World)
      → Runs base done w
      → IsStarted running is base
          (names_of done ++ map (λ e. e.0) instances)
          (start_from r done instances w)
  unfolding start_from
  start_from-IsStarted base done [] w h = (h, sym (append-nil (names_of done)))
  start_from-IsStarted base done ((name, cfg) ∷ rest) w h =
      unless_started-IsStarted base name (names_of done ++ name ∷ map (λ e. e.0) rest) done w
        (start_instance r name cfg w) (λ done' w'. start_from r done' rest w') h
        (start_instance-HasOneMore name cfg w)
        (λ i w' e h'.
          subst (λ names. IsStarted running is base names (start_from r (done ++ i ∷ []) rest w'))
            (ap (λ z. z ++ map (λ e. e.0) rest) (names_of-append done (i ∷ []))
              ∙ (append_assoc (names_of done) (i.name ∷ []) (map (λ e. e.0) rest)
                  ∙ ap (λ z. names_of done ++ z ∷ map (λ e. e.0) rest) e))
            (start_from-IsStarted base (done ++ i ∷ []) rest w' h'))

  -- Start gives one instance for each that is configured, in their order, each with a server that did
  -- not run, and runs those servers and no other besides; where one cannot start or its dump cannot be
  -- read, exactly the servers run that ran before: each that was started is closed again, that one
  -- included.
  pub start-IsStarted :
      (instances : List (Str × RedisInstance)) (w : World)
      → IsStarted running is (running w) (map (λ e. e.0) instances) (start r instances w)
  unfolding start
  start-IsStarted instances w = start_from-IsStarted (running w) [] instances w (λ m. (refl, refl))
