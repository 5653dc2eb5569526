-- ===== src/Clickhouse/Session/Reads.antt =====
-- What the programs that read take from the client, and that `drainClientData` comes to an end.
use spoofdb.Base.{
  ℕ, zero, suc, ◌+◌, ◌≤◌, ◌<◌, ◌≡◌, ◌==◌, Bool, true, false, some, inl, inr, arith, Option-cases,
  Bool-cases, if◌then◌else◌,
}
use spoofdb.Base.Int.{ℤ}
use spoofdb.Clickhouse.Wire.{Wire, IsLawful, Read, ◌>>=◌, pure, fail, when}
use spoofdb.Clickhouse.Session.{
  Drained, drained, drain_failed, drain_out_of_fuel, is_data, is_hello, read_client_block,
  drain_one, drain_client_data, read_client_hello,
}

module _ {Net : Type 0} (w : Wire Net) where
  -- what is read takes `j` bytes at least
  abbrev pub Takes : {A : Type 0} → ℕ → Read Net A → Type 0
  Takes {A = A} j m = (n n' : Net) (a : A) → m n ≡ some (a, n') → j + w.size n' ≤ w.size n

  pub bind-Takes :
      {A B : Type 0} (j k : ℕ) (m : Read Net A) (f : A → Read Net B)
      → Takes j m
      → ((a : A) → Takes k (f a))
      → Takes (j + k) (m >>= f)
  bind-Takes j k m f hm hf n n' b e = elim (Option-cases (m n)) [
    | inl q ↦ absurd (cc)
    | inr ((a, n1), q) ↦ omega (arith, hm n n1 a q, hf a n1 n' b (ground arith))
  ]

  pub pure-Takes : {A : Type 0} (a : A) → Takes 0 (pure a)
  pure-Takes a n n' b e = ground arith

  pub when-Takes : {A : Type 0} (b : Bool) (m : Read Net A) → Takes 0 m → Takes 0 (when b m)
  when-Takes true m h = bind-Takes 0 0 m (λ _. pure tt) h (λ _. pure-Takes tt)
  when-Takes false m h = pure-Takes tt

  pub fail-Takes : {A : Type 0} (j : ℕ) → Takes {A = A} j fail
  fail-Takes j n n' a e = absurd (cc)

  -- what is left of the loop: it has not run out, and the rest is no longer than `b`
  abbrev pub IsDrained : ℕ → Drained Net → Type 0
  IsDrained b drain_out_of_fuel = ⊥
  IsDrained b drain_failed = Unit
  IsDrained b (drained n) = w.size n ≤ b

  weaken : {a b : ℕ} (d : Drained Net) → a ≤ b → IsDrained a d → IsDrained b d
  weaken drain_out_of_fuel h i = i
  weaken drain_failed h i = i
  weaken (drained n) h i = omega arith

  module _ (l : IsLawful w) where
    pub uvarint-Takes : Takes 1 w.read_uvarint
    uvarint-Takes n n' c e = omega (arith, l.uvarint_shrinks n n' c e)

    pub str-Takes : Takes 0 w.read_str
    str-Takes n n' s e = omega (arith, l.str_keeps n n' s e)

    pub block_info-Takes : Takes 0 w.read_block_info
    block_info-Takes n n' a e = omega (arith, l.block_info_keeps n n' e)

    pub read_client_block-Takes : (v : ℤ) → Takes 2 (read_client_block w v)
    unfolding read_client_block
    read_client_block-Takes v =
        bind-Takes 0 2 _ _ (when-Takes (w.has_temp_tables v) w.read_str str-Takes) (λ _.
          bind-Takes 0 2 _ _ (when-Takes (w.has_block_info v) w.read_block_info block_info-Takes)
            (λ _.
              bind-Takes 1 1 _ _ uvarint-Takes
                (λ c. bind-Takes 1 0 _ _ uvarint-Takes (λ _. pure-Takes (c == 0)))))

    pub drain_one-Takes : (v : ℤ) → Takes 1 (drain_one w v)
    unfolding drain_one
    drain_one-Takes v = bind-Takes 1 0 _ _ uvarint-Takes (λ c n n' a e.
        elim (Bool-cases (is_data (w.client_code c))) [
          | inl q ↦ omega (arith, read_client_block-Takes v n n' a (ground arith))
          | inr q ↦ absurd (ground arith)
        ])

    pub hello_or_fail-Takes : (b : Bool) → Takes 0 (if b then w.read_hello else fail)
    hello_or_fail-Takes true n n' v e = omega (arith, l.hello_keeps n n' v e)
    hello_or_fail-Takes false n n' v e = fail-Takes 0 n n' v e

    pub read_client_hello-Takes : Takes 0 (read_client_hello w)
    unfolding read_client_hello
    read_client_hello-Takes =
        bind-Takes 0 0 w.read_uvarint _ (λ n n' c e. omega (arith, l.uvarint_shrinks n n' c e))
          (λ c.
            bind-Takes 0 0 _ _ (hello_or_fail-Takes (is_hello (w.client_code c)))
              (λ v. pure-Takes _))

    pub drain_client_data-IsDrained :
        (k : ℕ) (v : ℤ) (n : Net) → w.size n < k → IsDrained (w.size n) (drain_client_data w k v n)
    unfolding drain_client_data
    drain_client_data-IsDrained zero v n h = absurd (omega arith)
    drain_client_data-IsDrained (suc k) v n h = elim (Option-cases (drain_one w v n)) [
      | inl q ↦ rw (q, drain_client_data) tt
      | inr ((true, n'), q) ↦
          rw (q, drain_client_data) (omega (arith, drain_one-Takes v n n' true q))
      | inr ((false, n'), q) ↦
          rw (q, drain_client_data)
            (weaken (drain_client_data w k v n') (omega (arith, drain_one-Takes v n n' false q))
              (drain_client_data-IsDrained k v n' (omega (arith, drain_one-Takes v n n' false q))))
    ]
