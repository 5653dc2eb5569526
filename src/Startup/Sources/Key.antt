-- ===== src/Startup/Sources/Key.antt =====
-- Which requests share an engine.
use mathlib.Core.Path.{subst}
use mathlib.Core.List.{Perm}
use mathlib.Core.List.Perm
use spoofdb.Base.{
  ◌≡◌, ◌≢◌, refl, sym, ap, List, [], ◌∷◌, ◌++◌, map, Option, none, some, ◌⊎◌, inl, ap₂, inr, arith,
  All, Bool-cases, ◌↔◌,
}
use spoofdb.Text.{Str, join}
use spoofdb.Text.Laws.{same_refl}
use spoofdb.Text.Dict.{lookup, put}
use spoofdb.Sort.{sort_strings, le_str, insert, sort}
use spoofdb.Sort.Laws.{sort_strings-perm, sort_strings_canonical}
use spoofdb.Fidelity.Count.{NoNul, nul_inside}
use spoofdb.Config.{Config}
use spoofdb.Engine.Sources.{EngineSource}
use spoofdb.Startup.Sources.{
  StartError, select_from, wanted, select_sources, key_of, engine_key, made, engine_at, engine_of,
  engine_for,
}

pub lookup-put : {V : Type 0} (k : Str) (v : V) (m : List (Str × V)) → lookup k (put k v m) ≡ some v
unfolding lookup put
lookup-put k v [] = rw same_refl refl
lookup-put k v ((j, w) ∷ m) = ground (arith, same_refl k, lookup-put k v m)

lookup-put_other :
    {V : Type 0} (k key : Str) (v : V) (m : List (Str × V)) (e : V)
    → lookup key m ≡ none
    → lookup k m ≡ some e
    → lookup k (put key v m) ≡ some e
unfolding lookup put
lookup-put_other k key v [] e n h = cc
lookup-put_other k key v ((j, w) ∷ m) e n h = ground (arith, lookup-put_other k key v m e)

module _ {World E : Type 0} (getenv : Str → Str)
    (load : World → List EngineSource → World × (E ⊎ Str)) where
  -- an engine that was made is not replaced
  made_keeps :
      (k key : Str) (engines : List (Str × E)) (r : World × (E ⊎ Str)) (e : E)
      → lookup key engines ≡ none
      → lookup k engines ≡ some e
      → lookup k (made getenv load engines key r).1 ≡ some e
  made_keeps k key engines (w, inr m) e n h = h
  made_keeps k key engines (w, inl d) e n h = lookup-put_other k key d engines e n h

  engine_at_keeps :
      (k : Str) (w : World) (engines : List (Str × E)) (srcs : List EngineSource) (o : Option E)
      (e : E)
      → lookup (engine_key srcs) engines ≡ o
      → lookup k engines ≡ some e
      → lookup k (engine_at getenv load w engines srcs o).1 ≡ some e
  engine_at_keeps k w engines srcs (some d) e q h = h
  engine_at_keeps k w engines srcs none e q h =
      made_keeps k (engine_key srcs) engines (load w srcs) e q h

  engine_of_keeps :
      (k : Str) (w : World) (engines : List (Str × E)) (x : List EngineSource ⊎ StartError) (e : E)
      → lookup k engines ≡ some e
      → lookup k (engine_of getenv load w engines x).1 ≡ some e
  engine_of_keeps k w engines (inr m) e h = h
  engine_of_keeps k w engines (inl srcs) e h = engine_at_keeps k w engines srcs _ e refl h

  -- the engines behind some requests, whose names are given
  abbrev pub behind_requests :
      Config → List (List Str) → World × List (Str × E) → World × List (Str × E)
  behind_requests cfg [] (w, engines) = (w, engines)
  behind_requests cfg (names ∷ more) (w, engines) =
      let r = engine_for getenv load cfg w engines names in behind_requests cfg more (r.0, r.1)

  behind_requests_keep :
      (cfg : Config) (k : Str) (requests : List (List Str)) (w : World) (engines : List (Str × E))
      (e : E)
      → lookup k engines ≡ some e
      → lookup k (behind_requests cfg requests (w, engines)).1 ≡ some e
  unfolding engine_for
  behind_requests_keep cfg k [] w engines e h = h
  behind_requests_keep cfg k (names ∷ more) w engines e h =
      let r = engine_for getenv load cfg w engines names in
      behind_requests_keep cfg k more r.0 r.1 e
        (engine_of_keeps k w engines (select_sources getenv cfg names) e h)

  made_has :
      (engines : List (Str × E)) (key : Str) (r : World × (E ⊎ Str)) (e : E)
      → (made getenv load engines key r).2 ≡ inl e
      → lookup key (made getenv load engines key r).1 ≡ some e
  made_has engines key (w, inl d) e h = rw (lookup-put key d engines) (cc)
  made_has engines key (w, inr m) e h = cc

  engine_at_has :
      (w : World) (engines : List (Str × E)) (srcs : List EngineSource) (o : Option E) (e : E)
      → lookup (engine_key srcs) engines ≡ o
      → (engine_at getenv load w engines srcs o).2 ≡ inl e
      → lookup (engine_key srcs) (engine_at getenv load w engines srcs o).1 ≡ some e
  engine_at_has w engines srcs none e y h = made_has engines (engine_key srcs) (load w srcs) e h
  engine_at_has w engines srcs (some d) e y h = rw y (cc)

  -- what a request is given once its sources have an engine
  engine_of_shared :
      (cfg : Config) (w : World) (engines : List (Str × E)) (requests : List (List Str))
      (x : List EngineSource ⊎ StartError) (e : E)
      → (engine_of getenv load w engines x).2 ≡ inl e
      → (let (v, later) =
            behind_requests cfg requests
              ((engine_of getenv load w engines x).0, (engine_of getenv load w engines x).1) in
          engine_of getenv load v later x ≡ (v, later, inl e))
  engine_of_shared cfg w engines requests (inr m) e h = cc
  engine_of_shared cfg w engines requests (inl srcs) e h =
      let r = engine_of getenv load w engines (inl srcs) in
      rw
        (behind_requests_keep cfg (engine_key srcs) requests r.0 r.1 e
          (engine_at_has w engines srcs _ e refl h))
        refl

  -- Once a request for sources has been given an engine, and whatever requests are made between, with
  -- whatever result, a request for the same sources, in whatever order it names them, is given that
  -- engine, and nothing is loaded for it.
  pub engine_for_shared :
      (cfg : Config) (w : World) (engines : List (Str × E)) (names again : List Str)
      (between : List (List Str)) (e : E)
      → Perm (wanted cfg again) (wanted cfg names)
      → (engine_for getenv load cfg w engines names).2 ≡ inl e
      → (let r = engine_for getenv load cfg w engines names in
          let (v, later) = behind_requests cfg between (r.0, r.1) in
          engine_for getenv load cfg v later again ≡ (v, later, inl e))
  unfolding engine_for select_sources
  engine_for_shared cfg w engines names again between e p h = rw (sort_strings_canonical p) (
      engine_of_shared cfg w engines between
        (select_from getenv cfg.sources (sort_strings (wanted cfg names))) e h)

-- no NUL in any of the names
abbrev pub NoNulNames : List Str → Type 0
NoNulNames = All NoNul

module _ {ℓ} (P : Str → Type ℓ) where
  insert-All : (a : Str) (l : List Str) → P a → All P l → All P (insert le_str a l)
  unfolding insert
  insert-All a [] h k = (h, tt)
  insert-All a (x ∷ l) h k = elim (Bool-cases (le_str a x)) [
    | inl y ↦ rw y (h, k)
    | inr n ↦ rw n (k.0, insert-All a l h k.1)
  ]

  sort_strings-All : (l : List Str) → All P l → All P (sort_strings l)
  unfolding sort_strings sort
  sort_strings-All [] h = tt
  sort_strings-All (a ∷ l) h = insert-All a (sort le_str l) h.0 (sort_strings-All l h.1)

insert_nonempty : (a : Str) (l : List Str) → insert le_str a l ≢ []
unfolding insert
insert_nonempty a [] e = cc
insert_nonempty a (x ∷ l) e = elim (Bool-cases (le_str a x)) [
  | inl y ↦ (let h : a ∷ x ∷ l ≡ [] = rw y at e in cc)
  | inr n ↦ (let h : x ∷ insert le_str a l ≡ [] = rw n at e in cc)
]

sort_strings_nonempty : (l : List Str) → l ≢ [] → sort_strings l ≢ []
unfolding sort_strings sort
sort_strings_nonempty [] n e = n refl
sort_strings_nonempty (a ∷ l) n e = insert_nonempty a (sort le_str l) e

-- the first NUL ends the first name
split_injective : (c d r s : Str) → NoNul c → NoNul d → c ++ 0 ∷ r ≡ d ++ 0 ∷ s → (c ≡ d) × (r ≡ s)
split_injective [] [] r s hc hd e = ground arith
split_injective [] (y ∷ d) r s hc hd e = absurd (hd.0 (cc))
split_injective (x ∷ c) [] r s hc hd e = absurd (hc.0 (cc))
split_injective (x ∷ c) (y ∷ d) r s hc hd e = ground (arith, split_injective c d r s hc.1 hd.1)

join_injective :
    (a b : Str) (l m : List Str)
    → NoNulNames (a ∷ l)
    → NoNulNames (b ∷ m)
    → join (0 ∷ []) (a ∷ l) ≡ join (0 ∷ []) (b ∷ m)
    → a ∷ l ≡ b ∷ m
unfolding join
join_injective a b [] [] hl hm e = ap (λ z. z ∷ []) e
join_injective a b [] (c ∷ m) hl hm e = absurd (nul_inside b _ (subst NoNul e hl.0))
join_injective a b (c ∷ l) [] hl hm e = absurd (nul_inside a _ (subst NoNul (sym e) hm.0))
join_injective a b (c ∷ l) (d ∷ m) hl hm e =
    let (y, z) = split_injective a b _ _ hl.0 hm.0 e in
    ap₂ (λ x xs. x ∷ xs) y (join_injective c d l m hl.1 hm.1 z)

key_of_injective :
    (l m : List Str) → l ≢ [] → m ≢ [] → NoNulNames l → NoNulNames m → key_of l ≡ key_of m → l ≡ m
key_of_injective [] m nl nm hl hm e = absurd (nl refl)
key_of_injective (a ∷ l) [] nl nm hl hm e = absurd (nm refl)
key_of_injective (a ∷ l) (b ∷ m) nl nm hl hm e = join_injective a b l m hl hm e

abbrev pub names_of : List EngineSource → List Str
names_of srcs = map (λ s. s.name) srcs

-- Two sets of sources with names without NUL, neither of them empty, have the same key just if they
-- have the same names, as often, in whatever order: no set is served by the engine of another.
pub engine_key_iff :
    (srcs other : List EngineSource)
    → names_of srcs ≢ []
    → names_of other ≢ []
    → NoNulNames (names_of srcs)
    → NoNulNames (names_of other)
    → (engine_key srcs ≡ engine_key other) ↔ Perm (names_of srcs) (names_of other)
unfolding engine_key
engine_key_iff srcs other ns ms hs ho =
    let l = names_of srcs in
    let m = names_of other in
    (
      λ e. Perm.trans (Perm.symm (sort_strings-perm l)) (
          subst (λ z. Perm z m)
            (sym (
              key_of_injective (sort_strings l) (sort_strings m) (sort_strings_nonempty l ns)
                (sort_strings_nonempty m ms) (sort_strings-All NoNul l hs)
                (sort_strings-All NoNul m ho) e))
            (sort_strings-perm m)),
      λ p. ap key_of (sort_strings_canonical p),
    )
