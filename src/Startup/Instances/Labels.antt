-- ===== src/Startup/Instances/Labels.antt =====
-- Which instances the targets become.
use spoofdb.Base.{
  ℕ, suc, ◌+◌, ◌≡◌, ◌<◌, refl, sym, ◌∙◌, ap, false, List, [], ◌∷◌, ◌++◌, some, ◌⊎◌, inl, inr, arith,
  get_elem?, length, Bool-cases,
}
use spoofdb.Base.Int.{ℤ}
use spoofdb.Text.{Str, codes, same}
use spoofdb.Text.Laws.{same_iff}
use spoofdb.Text.Dict.{put}
use spoofdb.Decimal.{print_nat, read_nat}
use spoofdb.Decimal.RoundTrip.{read_nat-print_nat}
use spoofdb.Config.{RedisInstance}
use spoofdb.Startup.Flags.{FlagError, Protocol, postgres, mysql, clickhouse, redis}
use spoofdb.Startup.Instances.{label}

-- values under the names of instances, from the `i`th on
abbrev pub numbered : {V : Type 0} → ℕ → List V → List (Str × V)
numbered i [] = []
numbered i (v ∷ vs) = (label i, v) ∷ numbered (i + 1) vs

print_nat_injective : (m n : ℕ) → print_nat m ≡ print_nat n → m ≡ n
print_nat_injective m n e =
    let h : some m ≡ some n = sym (read_nat-print_nat m) ∙ ap read_nat e ∙ read_nat-print_nat n in
    cc

drop_prefix : (p s t : Str) → p ++ s ≡ p ++ t → s ≡ t
drop_prefix [] s t e = e
drop_prefix (c ∷ p) s t e = drop_prefix p s t (cc)

label_injective : (m n : ℕ) → label m ≡ label n → m ≡ n
unfolding label
label_injective m n e = print_nat_injective m n (drop_prefix (codes "shard") _ _ e)

pub label_apart : (m n : ℕ) → m < n → same (label m) (label n) ≡ false
label_apart m n l = elim (Bool-cases (same (label m) (label n))) [
  | inl y ↦
      (let e = label_injective m n ((same_iff (label m) (label n)).0 y) in absurd (omega arith))
  | inr z ↦ z
]

module _ {V : Type 0} where
  pub put-numbered :
      (i k : ℕ) (vs : List V) (v : V)
      → k ≡ i + length vs
      → put (label k) v (numbered i vs) ≡ numbered i (vs ++ v ∷ [])
  unfolding put
  put-numbered i k [] v e = ap (λ j. (label j, v) ∷ []) (omega arith)
  put-numbered i k (w ∷ vs) v e =
      rw (label_apart i k (omega arith))
        (ap (λ m. (label i, w) ∷ m) (put-numbered (i + 1) k vs v (omega arith)))

-- the instances of Redis: each port with its dump
abbrev pub zip_dumps : List ℤ → List Str → List RedisInstance
zip_dumps [] ds = []
zip_dumps (n ∷ ns) [] = []
zip_dumps (n ∷ ns) (d ∷ ds) = record { port = n; dump = d } ∷ zip_dumps ns ds

pub length-zip_dumps :
    (ns : List ℤ) (ds : List Str) (d : Str)
    → get_elem? ds (length ns) ≡ some d
    → length (zip_dumps ns ds) ≡ length ns
length-zip_dumps [] ds d h = refl
length-zip_dumps (n ∷ ns) [] d h = cc
length-zip_dumps (n ∷ ns) (e ∷ ds) d h = ap suc (length-zip_dumps ns ds d h)

pub zip_dumps-append :
    (ns : List ℤ) (n : ℤ) (ds : List Str) (d : Str)
    → get_elem? ds (length ns) ≡ some d
    → zip_dumps (ns ++ n ∷ []) ds ≡ zip_dumps ns ds ++ record { port = n; dump = d } ∷ []
zip_dumps-append [] n [] d h = cc
zip_dumps-append [] n (e ∷ ds) d h = cc
zip_dumps-append (m ∷ ns) n [] d h = cc
zip_dumps-append (m ∷ ns) n (e ∷ ds) d h =
    ap (λ z. record { port = m; dump = e } ∷ z) (zip_dumps-append ns n ds d h)

-- the ports of the targets of one protocol
abbrev pub port_if : Protocol → (Protocol × ℤ) ⊎ FlagError → List ℤ
port_if postgres (inl (postgres, n)) = n ∷ []
port_if mysql (inl (mysql, n)) = n ∷ []
port_if clickhouse (inl (clickhouse, n)) = n ∷ []
port_if redis (inl (redis, n)) = n ∷ []
port_if _ _ = []
