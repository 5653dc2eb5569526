-- ===== src/Clickhouse/Session/Ends.antt =====
-- The loops of a ClickHouse connection come to an end: the fuel that they are given is enough.
use spoofdb.Base.{
  ℕ, zero, suc, ◌+◌, ◌≤◌, ◌<◌, ◌≡◌, ◌≢◌, ap, refl, true, List, Option, none, some, inl, inr, arith,
  Option-cases,
}
use spoofdb.Text.{Str, Unicode}
use spoofdb.Value.{QueryResult, Outcome, the_result}
use spoofdb.Value.Print.{Formats}
use spoofdb.Fidelity.{Report}
use spoofdb.Engine.Run.{Answer, run_on}
use spoofdb.Clickhouse.Report.{report}
use spoofdb.Clickhouse.Wire.{
  ClientCode, client_hello, client_query, client_data, client_cancel, client_ping, client_other,
  Query, Packet, Wire, IsLawful, Read, when,
}
use spoofdb.Clickhouse.Session.Reads.{
  Takes, IsDrained, when-Takes, str-Takes, read_client_block-Takes, read_client_hello-Takes,
  drain_client_data-IsDrained,
}
use spoofdb.Clickhouse.Session.{
  Session, Ending, going, stopped, panicked, out_of_fuel, Drained, drained, drain_failed,
  drain_out_of_fuel, read_client_block, read_client_hello, onward, close_conn, write, after_read,
  handshake, write_built, log_summary, send_result, reply, answer, run_query, after_drain,
  handle_query, handle_packet, serve, handle_conn,
}

-- the fuel has not run out, and the client has no more than `b` bytes to send
abbrev IsDone : {Net Db : Type 0} → Wire Net → ℕ → Session Net Db × Ending → Type 0
IsDone w b (s, out_of_fuel) = ⊥
IsDone w b (s, going) = w.size s.net ≤ b
IsDone w b (s, stopped) = w.size s.net ≤ b
IsDone w b (s, panicked) = w.size s.net ≤ b

module _ {Net Db : Type 0} (w : Wire Net) where
  IsDone-weaken : {a b : ℕ} (r : Session Net Db × Ending) → a ≤ b → IsDone w a r → IsDone w b r
  IsDone-weaken (s, out_of_fuel) h i = i
  IsDone-weaken (s, going) h i = omega arith
  IsDone-weaken (s, stopped) h i = omega arith
  IsDone-weaken (s, panicked) h i = omega arith

  onward-IsDone :
      {b : ℕ} (r : Session Net Db × Ending) (next : Session Net Db → Session Net Db × Ending)
      → IsDone w b r
      → ((s : Session Net Db) → w.size s.net ≤ b → IsDone w b (next s))
      → IsDone w b (onward r next)
  onward-IsDone (s, out_of_fuel) next h k = h
  onward-IsDone (s, going) next h k = k s h
  onward-IsDone (s, stopped) next h k = h
  onward-IsDone (s, panicked) next h k = h

  -- behind a read that takes `j` bytes, and a step that does not add any
  after_read-IsDone :
      {A : Type 0} {b : ℕ} (j : ℕ) (s : Session Net Db) (m : Read Net A)
      (next : A → Session Net Db → Session Net Db × Ending)
      → Takes w j m
      → w.size s.net ≤ b
      → ((a : A) (s' : Session Net Db) → j + w.size s'.net ≤ b → IsDone w b (next a s'))
      → IsDone w b (after_read w s (m s.net) next)
  after_read-IsDone j s m next t h k = elim (Option-cases (m s.net)) [
    | inl q ↦ rw (q, after_read) h
    | inr ((a, n), q) ↦
        rw (q, after_read) (k a (record s { net = n }) (omega (arith, t s.net n a q)))
  ]

  module _ (l : IsLawful w) where
    write-IsDone :
        {b : ℕ} (ps : List Packet) (s : Session Net Db)
        → w.size s.net ≤ b
        → IsDone w b (write w ps s)
    unfolding write
    write-IsDone ps s h = elim (Option-cases (w.write ps s.net)) [
      | inl q ↦ rw (q, write) h
      | inr (n, q) ↦ rw (q, write) (omega (arith, l.write_keeps ps s.net n q))
    ]

    handshake-IsDone : {b : ℕ} (s : Session Net Db) → w.size s.net ≤ b → IsDone w b (handshake w s)
    unfolding handshake
    handshake-IsDone s h =
        after_read-IsDone 0 s (read_client_hello w) _ (read_client_hello-Takes w l) h (λ v s1 h1.
          onward-IsDone (write w _ _) _ (write-IsDone _ _ (omega arith)) (λ s2 h2.
            after_read-IsDone 0 s2 (when (w.has_addendum s2.version) w.read_str) _
              (when-Takes w _ w.read_str (str-Takes w l)) h2 (λ _ s3 h3. omega arith)))

    write_built-IsDone :
        {b : ℕ} (o : Option (List Packet)) (s : Session Net Db)
        → w.size s.net ≤ b
        → IsDone w b (write_built w o s)
    write_built-IsDone none s h = h
    write_built-IsDone (some ps) s h = write-IsDone ps s h

    module _ ⦃u : Unicode⦄ ⦃fm : Formats⦄ where
      log_summary_net : (rep : Report) (s : Session Net Db) → (log_summary rep s).net ≡ s.net
      unfolding log_summary
      log_summary_net rep s = ground arith

      reply-IsDone :
          {b : ℕ} (res : QueryResult) (id : Str) (s : Session Net Db)
          → w.size s.net ≤ b
          → IsDone w b (reply w res id s)
      unfolding reply send_result
      reply-IsDone res id s h =
          write_built-IsDone _ (log_summary (report res) s)
            (omega (arith, ap w.size (log_summary_net (report res) s)))

      answer-IsDone :
          {b : ℕ} (o : Outcome) (id : Str) (s : Session Net Db)
          → w.size s.net ≤ b
          → IsDone w b (answer w o id s)
      unfolding answer
      answer-IsDone o id s h = elim (Option-cases o.err) [
        | inl q ↦ rw (q, answer) (reply-IsDone (the_result o.res) id s h)
        | inr (m, q) ↦ rw (q, answer) (write-IsDone _ s h)
      ]

      module _ (query_context : Db → Str → Db × Answer) where
        after_drain-IsDone :
            {b : ℕ} (q : Query) (s : Session Net Db) (d : Drained Net)
            → w.size s.net ≤ b
            → IsDrained w (w.size s.net) d
            → IsDone w b (after_drain w query_context q s d)
        unfolding run_query
        after_drain-IsDone q s drain_failed h i = h
        after_drain-IsDone q s drain_out_of_fuel h i = absurd i
        after_drain-IsDone q s (drained n) h i =
            let (e, db, o) = run_on query_context s.eng s.db q.body in
            let left : w.size n ≤ w.size s.net = i in
            answer-IsDone o q.id (record s { net = n; eng = e; db = db }) (omega arith)

        handle_query-IsDone :
            {b : ℕ} (s : Session Net Db)
            → w.size s.net ≤ b
            → IsDone w b (handle_query w query_context s)
        unfolding handle_query run_query
        handle_query-IsDone s h =
            after_read-IsDone 0 s (w.read_query s.version) _
              (λ n n' q e. omega (arith, l.query_keeps s.version n n' q e)) h
              (λ q s' h'. after_drain-IsDone q s' _ (omega arith) (
                drain_client_data-IsDrained w l (suc (w.size s'.net)) s'.version s'.net
                  (omega arith)))

        handle_packet-IsDone :
            {b : ℕ} (c : ClientCode) (s : Session Net Db)
            → w.size s.net ≤ b
            → IsDone w b (handle_packet w query_context c s)
        unfolding handle_packet
        handle_packet-IsDone client_query s h = handle_query-IsDone s h
        handle_packet-IsDone client_ping s h = write-IsDone _ s h
        handle_packet-IsDone client_data s h =
            after_read-IsDone 2 s (read_client_block w s.version) _
              (read_client_block-Takes w l s.version) h (λ _ s' h'. omega arith)
        handle_packet-IsDone client_cancel s h = h
        handle_packet-IsDone client_hello s h = h
        handle_packet-IsDone client_other s h = h

        serve-IsDone :
            (k b : ℕ) (s : Session Net Db)
            → w.size s.net < k
            → w.size s.net ≤ b
            → IsDone w b (serve w query_context k s)
        unfolding serve
        serve-IsDone zero b s h i = absurd (omega arith)
        serve-IsDone (suc k) b s h i = elim (Option-cases (w.read_uvarint s.net)) [
          | inl q ↦ rw (q, serve) i
          | inr ((c, n), q) ↦
              let fewer : suc (w.size n) ≤ w.size s.net = l.uvarint_shrinks s.net n c q in
              let r = handle_packet w query_context (w.client_code c) (record s { net = n }) in
              rw (q, serve)
                (IsDone-weaken {a = w.size n} (onward r (λ s'. serve w query_context k s'))
                  (omega arith)
                  (onward-IsDone {b = w.size n} r (λ s'. serve w query_context k s')
                    (handle_packet-IsDone (w.client_code c) (record s { net = n }) (omega arith))
                    (λ s' h'.
                      let left : w.size s'.net ≤ w.size n = h' in
                      serve-IsDone k (w.size n) s' (omega arith) left)))
        ]

        close_conn-IsDone :
            (b : ℕ) (r : Session Net Db × Ending)
            → IsDone w b r
            → ((close_conn r).0.closed ≡ true) × ((close_conn r).1 ≢ out_of_fuel)
        unfolding close_conn
        close_conn-IsDone b (s, out_of_fuel) h = absurd h
        close_conn-IsDone b (s, going) h = (refl, λ q. cc)
        close_conn-IsDone b (s, stopped) h = (refl, λ q. cc)
        close_conn-IsDone b (s, panicked) h = (refl, λ q. cc)

        -- Whatever a client sends, if it sends a finite number of bytes, its connection comes to an
        -- end and is closed: neither the loop over its packets nor the one that drains the data behind
        -- a query runs forever, for every number that is read takes a byte at least.
        pub handle_conn_ends :
            (s : Session Net Db)
            → ((handle_conn w query_context s).0.closed ≡ true)
              × ((handle_conn w query_context s).1 ≢ out_of_fuel)
        unfolding handle_conn
        handle_conn_ends s = close_conn-IsDone (w.size s.net) _ (
            onward-IsDone (handshake w s) _ (handshake-IsDone s (omega arith))
              (λ s' h'. serve-IsDone (suc (w.size s'.net)) (w.size s.net) s' (omega arith) h'))
