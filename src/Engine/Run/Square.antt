-- ===== src/Engine/Run/Square.antt =====
-- A result of `runOn` has as many values in each row as it has columns, if the cursor has.
use mathlib.Core.Path.{subst}
use spoofdb.Base.{
  ℕ, ◌≡◌, refl, sym, ◌∙◌, List, [], ◌∷◌, ◌++◌, map, Option, none, some, ◌⊎◌, inl, inr, arith,
  length, All, All-append, Bool-cases, if◌then◌else◌,
}
use spoofdb.Text.{Str, Unicode}
use spoofdb.Value.{Value, Column, QueryResult, Outcome}
use spoofdb.Engine.Errors.{ErrClass, app, missing_relation, dialect_gap, classify_err}
use spoofdb.Engine.Run.{
  Engine, Answer, refused, rows, Rows, Scan, scanned, scan_failed, columns_of, normalize, fetch,
  buffer, recover, settle, run_on,
}

-- a row that is scanned has `n` values
abbrev pub HasWidth : ℕ → Scan → Type 0
HasWidth n (scanned vals) = length vals ≡ n
HasWidth n (scan_failed m) = Unit

abbrev AreScanned : List Str ⊎ Str → List Scan → Type 0
AreScanned (inl names) scans = All (HasWidth (length names)) scans
AreScanned (inr m) scans = Unit

-- `Scan` fills one value for each column of the cursor
abbrev pub IsTable : Answer → Type 0
IsTable (refused m) = Unit
IsTable (rows r) = AreScanned r.columns r.scans

-- a result, where there is one, has a value for each column in each row
abbrev IsSquareResult : Option QueryResult → Type 0
IsSquareResult none = Unit
IsSquareResult (some r) = All (λ row. length row ≡ length r.cols) r.rows

abbrev pub IsSquare : Outcome → Type 0
IsSquare o = IsSquareResult o.res

length-normalized : (vals : List Value) → length (map normalize vals) ≡ length vals
length-normalized [] = refl
length-normalized (v ∷ vals) = omega (arith, length-normalized vals)

length-columns_of : (names types : List Str) → length (columns_of names types) ≡ length names
unfolding columns_of
length-columns_of [] types = refl
length-columns_of (n ∷ ns) [] = omega (arith, length-columns_of ns [])
length-columns_of (n ∷ ns) (t ∷ ts) = omega (arith, length-columns_of ns ts)

fetch-IsSquare :
    (cols : List Column) (done : List (List Value)) (scans : List Scan) (last : Option Str)
    → All (λ row. length row ≡ length cols) done
    → All (HasWidth (length cols)) scans
    → IsSquare (fetch cols done scans last)
unfolding fetch
fetch-IsSquare cols done [] last h k = h
fetch-IsSquare cols done (scanned vals ∷ more) last h k =
    fetch-IsSquare cols (done ++ map normalize vals ∷ []) more last
      (All-append (λ row. length row ≡ length cols) done (map normalize vals ∷ []) h
        (length-normalized vals ∙ k.0, tt))
      k.1
fetch-IsSquare cols done (scan_failed m ∷ more) last h k = tt

module _ ⦃u : Unicode⦄ where
  recover-IsSquare : (e : Engine) (m : Str) (c : ErrClass) → IsSquare (recover e m c).1
  unfolding recover
  recover-IsSquare e m missing_relation = elim (Bool-cases e.stub) [
    | inl q ↦ rw (q, if◌then◌else◌) tt
    | inr q ↦ rw (q, if◌then◌else◌) tt
  ]
  recover-IsSquare e m dialect_gap = elim (Bool-cases e.stub) [
    | inl q ↦ rw (q, if◌then◌else◌) tt
    | inr q ↦ rw (q, if◌then◌else◌) tt
  ]
  recover-IsSquare e m app = tt

  buffered-IsSquare :
      (r : Rows) (c : List Str ⊎ Str) → r.columns ≡ c → AreScanned c r.scans → IsSquare (buffer r)
  unfolding buffer
  buffered-IsSquare r (inl names) e h =
      rw (e, buffer)
        (fetch-IsSquare (columns_of names r.types) [] r.scans r.last_err tt
          (subst (λ n. All (HasWidth n) r.scans) (sym (length-columns_of names r.types)) h))
  buffered-IsSquare r (inr m) e h = rw (e, buffer) tt

  settle-IsSquare : (e : Engine) (a : Answer) → IsTable a → IsSquare (settle e a).1
  unfolding settle
  settle-IsSquare e (refused m) h = recover-IsSquare e m (classify_err (some m))
  settle-IsSquare e (rows r) h = buffered-IsSquare r r.columns refl h

  pub run_on-IsSquare :
      {Db : Type 0} (query_context : Db → Str → Db × Answer) (e : Engine) (db : Db) (query : Str)
      → IsTable (query_context db query).1
      → IsSquare (run_on query_context e db query).2
  unfolding run_on
  run_on-IsSquare query_context e db query h = settle-IsSquare e (query_context db query).1 h
