-- ===== src/Startup/Instances/Placed.antt =====
-- What one target adds to the instances that are there.
use spoofdb.Base.{
  suc, ◌+◌, ◌≡◌, refl, sym, ◌∙◌, ap, List, [], ◌∷◌, ◌++◌, map, Option, none, some, inl, arith,
  get_elem?, length, length-append, append-nil,
}
use spoofdb.Base.Int.{ℤ}
use spoofdb.Text.{Str}
use spoofdb.Text.Dict.{put}
use spoofdb.Startup.Flags.{Protocol, postgres, mysql, clickhouse, redis}
use spoofdb.Startup.Instances.{Made, label, sql_instance, place, place_redis}
use spoofdb.Startup.Instances.Labels.{
  numbered, put-numbered, zip_dumps, length-zip_dumps, zip_dumps-append, port_if,
}

-- what the loop has made of some ports of each protocol
abbrev pub made_of : List Str → List ℤ → List ℤ → List ℤ → List ℤ → Made
made_of ds ps ms cs rs = record {
  spoof = record {
    postgres = numbered 0 (map sql_instance ps);
    mysql = numbered 0 (map sql_instance ms);
    clickhouse = numbered 0 (map sql_instance cs);
  };
  redis_map = numbered 0 (zip_dumps rs ds);
  postgres_count = length ps;
  mysql_count = length ms;
  clickhouse_count = length cs;
  redis_count = length rs;
}

length-map : {A B : Type 0} (f : A → B) (l : List A) → length (map f l) ≡ length l
length-map f [] = refl
length-map f (x ∷ l) = ap suc (length-map f l)

map-snoc :
    {A B : Type 0} (f : A → B) (l : List A) (a : A) → map f (l ++ a ∷ []) ≡ map f l ++ f a ∷ []
map-snoc f [] a = refl
map-snoc f (x ∷ l) a = ap (λ z. f x ∷ z) (map-snoc f l a)

put_sql :
    (ps : List ℤ) (n : ℤ)
    → put (label (length ps)) (sql_instance n) (numbered 0 (map sql_instance ps))
      ≡ numbered 0 (map sql_instance (ps ++ n ∷ []))
put_sql ps n =
    put-numbered 0 (length ps) (map sql_instance ps) (sql_instance n)
      (omega (arith, length-map sql_instance ps))
    ∙ ap (numbered 0) (sym (map-snoc sql_instance ps n))

length-snoc : (ps : List ℤ) (n : ℤ) → length ps + 1 ≡ length (ps ++ n ∷ [])
length-snoc ps n = omega (arith, length-append ps (n ∷ []))

place_postgres :
    (ds : List Str) (spec : Str) (n : ℤ) (ps ms cs rs : List ℤ)
    → place ds spec postgres n (made_of ds ps ms cs rs) ≡ inl (made_of ds (ps ++ n ∷ []) ms cs rs)
unfolding place
place_postgres ds spec n ps ms cs rs = rw (put_sql ps n, length-snoc ps n) refl

place_mysql :
    (ds : List Str) (spec : Str) (n : ℤ) (ps ms cs rs : List ℤ)
    → place ds spec mysql n (made_of ds ps ms cs rs) ≡ inl (made_of ds ps (ms ++ n ∷ []) cs rs)
unfolding place
place_mysql ds spec n ps ms cs rs = rw (put_sql ms n, length-snoc ms n) refl

place_clickhouse :
    (ds : List Str) (spec : Str) (n : ℤ) (ps ms cs rs : List ℤ)
    → place ds spec clickhouse n (made_of ds ps ms cs rs) ≡ inl (made_of ds ps ms (cs ++ n ∷ []) rs)
unfolding place
place_clickhouse ds spec n ps ms cs rs = rw (put_sql cs n, length-snoc cs n) refl

put_redis :
    (ds : List Str) (n : ℤ) (rs : List ℤ) (d : Str)
    → get_elem? ds (length rs) ≡ some d
    → put (label (length rs)) (record { port = n; dump = d }) (numbered 0 (zip_dumps rs ds))
      ≡ numbered 0 (zip_dumps (rs ++ n ∷ []) ds)
put_redis ds n rs d y =
    put-numbered 0 (length rs) (zip_dumps rs ds) (record { port = n; dump = d })
      (omega (arith, length-zip_dumps rs ds d y))
    ∙ ap (numbered 0) (sym (zip_dumps-append rs n ds d y))

placed_redis :
    (ds : List Str) (spec : Str) (n : ℤ) (ps ms cs rs : List ℤ) (o : Option Str) (b : Made)
    → get_elem? ds (length rs) ≡ o
    → place_redis spec n (made_of ds ps ms cs rs) o ≡ inl b
    → b ≡ made_of ds ps ms cs (rs ++ n ∷ [])
placed_redis ds spec n ps ms cs rs none b y h = cc
placed_redis ds spec n ps ms cs rs (some d) b y h =
    let z : place_redis spec n (made_of ds ps ms cs rs) (some d)
        ≡ inl (made_of ds ps ms cs (rs ++ n ∷ [])) =
      rw (put_redis ds n rs d y, length-snoc rs n) refl in
    cc

-- what a target adds to what has been made
pub placed :
    (ds : List Str) (spec : Str) (r : Protocol × ℤ) (ps ms cs rs : List ℤ) (b : Made)
    → place ds spec r.0 r.1 (made_of ds ps ms cs rs) ≡ inl b
    → b
      ≡ made_of ds
          (ps ++ port_if postgres (inl r))
          (ms ++ port_if mysql (inl r))
          (cs ++ port_if clickhouse (inl r))
          (rs ++ port_if redis (inl r))
placed ds spec (postgres, n) ps ms cs rs b h =
    let e = place_postgres ds spec n ps ms cs rs in
    rw (append-nil ms, append-nil cs, append-nil rs) (cc)
placed ds spec (mysql, n) ps ms cs rs b h =
    let e = place_mysql ds spec n ps ms cs rs in
    rw (append-nil ps, append-nil cs, append-nil rs) (cc)
placed ds spec (clickhouse, n) ps ms cs rs b h =
    let e = place_clickhouse ds spec n ps ms cs rs in
    rw (append-nil ps, append-nil ms, append-nil rs) (cc)
placed ds spec (redis, n) ps ms cs rs b h =
    rw (append-nil ps, append-nil ms, append-nil cs)
      (placed_redis ds spec n ps ms cs rs _ b refl (unfold place in h))
