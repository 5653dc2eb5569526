-- ===== src/Startup/Shards/Engines.antt =====
-- Where the engines of `engineFor` come from.
use mathlib.Core.Path.{subst}
use spoofdb.Base.{
  ◌≡◌, refl, sym, ap, ◌∙◌, false, List, [], ◌∷◌, Option, none, some, ◌⊎◌, inl, inr, arith,
  Bool-cases,
}
use spoofdb.Text.{Str, same}
use spoofdb.Text.Laws.{same_iff}
use spoofdb.Text.Dict.{lookup, put}
use spoofdb.Config.{Config}
use spoofdb.Engine.Sources.{EngineSource}
use spoofdb.Startup.Sources.{
  StartError, not_loaded, select_sources, engine_key, made, engine_at, engine_of, engine_for,
}
use spoofdb.Startup.Sources.Key.{lookup-put}

lookup-put_ne :
    {V : Type 0} (k key : Str) (v : V) (m : List (Str × V))
    → same key k ≡ false
    → lookup k (put key v m) ≡ lookup k m
unfolding lookup put
lookup-put_ne k key v [] h = rw h refl
lookup-put_ne k key v ((j, w) ∷ m) h =
    ground (arith, lookup-put_ne k key v m h, same_iff j key, same_iff j k)

module _ {World E : Type 0} (getenv : Str → Str)
    (load : World → List EngineSource → World × (E ⊎ Str)) where
  -- an engine that was loaded, in some world, from sources with a key
  abbrev pub IsMade : Str → E → Type 0
  IsMade key e =
      (srcs : List EngineSource) × (w : World) × (engine_key srcs ≡ key) × ((load w srcs).1 ≡ inl e)

  -- each engine was loaded for the key that it has
  abbrev pub AreMade : List (Str × E) → Type 0
  AreMade engines = (key : Str) (e : E) → lookup key engines ≡ some e → IsMade key e

  module _ (cfg : Config) where
    -- an engine that was loaded from the sources of these names
    abbrev pub IsEngine : List Str → E → Type 0
    IsEngine names e =
        (srcs : List EngineSource) × (select_sources getenv cfg names ≡ inl srcs)
        × IsMade (engine_key srcs) e

    -- why there is none: a name has no source, or they cannot be loaded
    pub data IsReason (names : List Str) : StartError → Type 0 where
      no_source : (e : StartError) → select_sources getenv cfg names ≡ inr e → IsReason names e
      no_engine :
          (srcs : List EngineSource) (w : World) (m : Str)
          → select_sources getenv cfg names ≡ inl srcs
          → (load w srcs).1 ≡ inr m
          → IsReason names (not_loaded m)

    abbrev pub IsGiven : List Str → World × List (Str × E) × (E ⊎ StartError) → Type 0
    IsGiven names (w, engines, inl e) = AreMade engines × IsEngine names e
    IsGiven names (w, engines, inr m) = IsReason names m

    put-AreMade :
        (engines : List (Str × E)) (srcs : List EngineSource) (w : World) (e : E)
        → AreMade engines
        → (load w srcs).1 ≡ inl e
        → AreMade (put (engine_key srcs) e engines)
    put-AreMade engines srcs w e a h key d q = elim (Bool-cases (same (engine_key srcs) key)) [
      | inl y ↦
          let k = (same_iff (engine_key srcs) key).0 y in
          let g : lookup (engine_key srcs) (put (engine_key srcs) e engines) ≡ some d =
            subst (λ z. lookup z (put (engine_key srcs) e engines) ≡ some d) (sym k) q in
          let f = lookup-put (engine_key srcs) e engines in (srcs, w, k, h ∙ cc)
      | inr n ↦ a key d (sym (lookup-put_ne key (engine_key srcs) e engines n) ∙ q)
    ]

    made-IsGiven :
        (names : List Str) (engines : List (Str × E)) (srcs : List EngineSource) (w : World)
        (x : World × (E ⊎ Str))
        → load w srcs ≡ x
        → AreMade engines
        → select_sources getenv cfg names ≡ inl srcs
        → IsGiven names (made getenv load engines (engine_key srcs) x)
    made-IsGiven names engines srcs w (w', inl e) q a s =
        let h = ap (λ z. z.1) q in (put-AreMade engines srcs w e a h, (srcs, s, (srcs, w, refl, h)))
    made-IsGiven names engines srcs w (w', inr m) q a s = no_engine srcs w m s (ap (λ z. z.1) q)

    engine_at-IsGiven :
        (names : List Str) (w : World) (engines : List (Str × E)) (srcs : List EngineSource)
        (o : Option E)
        → lookup (engine_key srcs) engines ≡ o
        → AreMade engines
        → select_sources getenv cfg names ≡ inl srcs
        → IsGiven names (engine_at getenv load w engines srcs o)
    engine_at-IsGiven names w engines srcs (some e) q a s = (a, (srcs, s, a (engine_key srcs) e q))
    engine_at-IsGiven names w engines srcs none q a s =
        made-IsGiven names engines srcs w (load w srcs) refl a s

    engine_of-IsGiven :
        (names : List Str) (w : World) (engines : List (Str × E))
        (x : List EngineSource ⊎ StartError)
        → select_sources getenv cfg names ≡ x
        → AreMade engines
        → IsGiven names (engine_of getenv load w engines x)
    engine_of-IsGiven names w engines (inr e) s a = no_source e s
    engine_of-IsGiven names w engines (inl srcs) s a =
        engine_at-IsGiven names w engines srcs (lookup (engine_key srcs) engines) refl a s

    pub engine_for-IsGiven :
        (names : List Str) (w : World) (engines : List (Str × E))
        → AreMade engines
        → IsGiven names (engine_for getenv load cfg w engines names)
    unfolding engine_for
    engine_for-IsGiven names w engines a =
        engine_of-IsGiven names w engines (select_sources getenv cfg names) refl a
