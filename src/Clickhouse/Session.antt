-- ===== src/Clickhouse/Session.antt =====
-- internal/clickhouse/handler.go: `chSession` and its methods, and `handleConn`. The engine and the
-- database, which the connections share, are parts of the session here.
pub mod Reads
pub mod Ends
pub mod Replies
pub mod Talk
use spoofdb.Base.{
  ℕ, zero, suc, ◌==◌, Bool, true, false, not, ◌||◌, List, [], ◌∷◌, ◌++◌, Option, none, some, leb,
  if◌then◌else◌,
}
use spoofdb.Base.Int.{ℤ, pos, negsuc}
use spoofdb.Text.{Str, codes, Unicode}
use spoofdb.Value.{QueryResult, Outcome, the_result}
use spoofdb.Value.Print.{Formats}
use spoofdb.Fidelity.{Report, is_empty, summary}
use spoofdb.Engine.Run.{Engine, Answer, run_on}
use spoofdb.Clickhouse.Report.{report}
use spoofdb.Clickhouse.Wire.{
  ClientCode, client_hello, client_query, client_data, client_cancel, client_ping, client_other,
  Query, ServerHello, Packet, server_hello, pong, Wire, Read, ◌>>=◌, ◌>>◌, pure, fail, when,
}
use spoofdb.Clickhouse.Packets.{result_packets, exception_packet}

-- the lines that the handler logs
pub data LogLine : Type 0 where
  approximated : Str → LogLine
  recovered : LogLine

-- `chSession`, with the packets of the writes that succeeded, those of a write that failed, of whose
-- bytes the client may have got the first ones, what has been logged and whether the connection is
-- closed
pub record Session (Net Db : Type 0) : Type 0 where
  pub net : Net
  pub version : ℤ
  pub eng : Engine
  pub db : Db
  pub sent : List Packet
  pub lost : List Packet
  pub log : List LogLine
  pub closed : Bool

-- How a method ends: without an error, with one, or in a panic. The loops run on fuel, which does
-- not run out.
pub data Ending : Type 0 where
  going stopped panicked out_of_fuel : Ending

-- what is left of the loop of `drainClientData`
pub data Drained (Net : Type 0) : Type 0 where
  drained : Net → Drained Net
  drain_failed : Drained Net
  drain_out_of_fuel : Drained Net

-- `proto.ClientCode(code) != proto.ClientCodeData`
abbrev pub is_data : ClientCode → Bool
is_data client_data = true
is_data c = false

-- `proto.ClientCode(code) != proto.ClientCodeHello`
abbrev pub is_hello : ClientCode → Bool
is_hello client_hello = true
is_hello c = false

-- `s.version == 0 || s.version > serverRevision`
unfoldable pub is_capped : ℕ → ℤ → Bool
is_capped revision (pos n) = (n == 0) || not (leb n revision)
is_capped revision (negsuc n) = false

-- the revision of `handshake`: the client's, capped at the server's
unfoldable pub negotiated : ℕ → ℤ → ℤ
unfolding is_capped
negotiated revision v = if is_capped revision v then pos revision else v

module _ {Net : Type 0} (w : Wire Net) where
  -- `readClientBlock`
  unfoldable pub read_client_block : ℤ → Read Net Bool
  read_client_block version = do
    when (w.has_temp_tables version) w.read_str
    when (w.has_block_info version) w.read_block_info
    cols ← w.read_uvarint
    rows ← w.read_uvarint
    pure (cols == 0)

  -- one round of `drainClientData`: was the block the empty terminator?
  unfoldable pub drain_one : ℤ → Read Net Bool
  unfolding read_client_block
  drain_one version = do
    code ← w.read_uvarint
    if is_data (w.client_code code) then read_client_block version else fail

  -- `drainClientData`
  unfoldable pub drain_client_data : ℕ → ℤ → Net → Drained Net
  unfolding drain_one
  drain_client_data zero version n = drain_out_of_fuel
  drain_client_data (suc k) version n = elim (drain_one version n) [
    | none ↦ drain_failed
    | some (true, n') ↦ drained n'
    | some (false, n') ↦ drain_client_data k version n'
  ]

  unfoldable pub hello_of_server : ServerHello
  hello_of_server = record {
    name = codes "spoofdb";
    major = 23;
    minor = 8;
    revision = w.server_revision;
    timezone = codes "UTC";
    display_name = codes "spoofdb";
    patch = 0;
  }

  -- `handshake` up to the server's Hello: the revision
  unfoldable pub read_client_hello : Read Net ℤ
  unfolding negotiated
  read_client_hello = do
    code ← w.read_uvarint
    v ← if is_hello (w.client_code code) then w.read_hello else fail
    pure (negotiated w.server_revision v)

module _ {Net Db : Type 0} where
  -- `if err != nil { return err }`
  abbrev pub onward :
      Session Net Db × Ending → (Session Net Db → Session Net Db × Ending) → Session Net Db × Ending
  onward (s, going) next = next s
  onward (s, e) next = (s, e)

  -- `defer` of `handleConn`, in the order in which its calls run
  unfoldable pub close_conn : Session Net Db × Ending → Session Net Db × Ending
  close_conn (s, out_of_fuel) = (s, out_of_fuel)
  close_conn (s, panicked) = (record s { log = s.log ++ recovered ∷ []; closed = true }, panicked)
  close_conn (s, e) = (record s { closed = true }, e)

  module _ ⦃fm : Formats⦄ where
    -- the log of `handleQuery`
    unfoldable pub log_summary : Report → Session Net Db → Session Net Db
    log_summary rep s =
        if is_empty rep then s else record s { log = s.log ++ approximated (summary rep) ∷ [] }

  module _ (w : Wire Net) where
    -- `write`
    unfoldable pub write : List Packet → Session Net Db → Session Net Db × Ending
    write ps s = elim (w.write ps s.net) [
      | none ↦ (record s { lost = ps }, stopped)
      | some n ↦ (record s { net = n; sent = s.sent ++ ps }, going)
    ]

    -- what a read leaves of the session
    abbrev pub after_read :
        {A : Type 0}
        → Session Net Db
        → Option (A × Net)
        → (A → Session Net Db → Session Net Db × Ending)
        → Session Net Db × Ending
    after_read s none next = (s, stopped)
    after_read s (some (a, n)) next = next a (record s { net = n })

    -- `handshake`
    unfoldable pub handshake : Session Net Db → Session Net Db × Ending
    unfolding read_client_hello hello_of_server write
    handshake s = after_read s (read_client_hello w s.net) (λ v s1.
        onward (write (server_hello (hello_of_server w) v ∷ []) (record s1 { version = v })) (λ s2.
          after_read s2 (when (w.has_addendum s2.version) w.read_str s2.net) (λ _ s3. (s3, going))))

    -- a write of packets, where no panic stands in its way
    abbrev pub write_built : Option (List Packet) → Session Net Db → Session Net Db × Ending
    write_built none s = (s, panicked)
    write_built (some ps) s = write ps s

    module _ ⦃u : Unicode⦄ ⦃fm : Formats⦄ where
      -- `sendResult`
      unfoldable pub send_result :
          QueryResult → Str → Report → Session Net Db → Session Net Db × Ending
      unfolding result_packets write
      send_result res query_id rep s =
          write_built (result_packets w s.version res query_id rep (w.now s.net)) s

      -- `handleQuery` behind a query that did not fail
      unfoldable pub reply : QueryResult → Str → Session Net Db → Session Net Db × Ending
      unfolding send_result log_summary
      reply res query_id s = send_result res query_id (report res) (log_summary (report res) s)

      -- `handleQuery` behind `s.eng.Run`
      unfoldable pub answer : Outcome → Str → Session Net Db → Session Net Db × Ending
      unfolding reply exception_packet write
      answer o query_id s = elim o.err [
        | some m ↦ write (exception_packet m ∷ []) s
        | none ↦ reply (the_result o.res) query_id s
      ]

      module _ (query_context : Db → Str → Db × Answer) where
        -- `handleQuery` from `s.eng.Run` on
        unfoldable pub run_query : Query → Session Net Db → Session Net Db × Ending
        unfolding answer
        run_query q s =
            let (e, db, o) = run_on query_context s.eng s.db q.body in
            answer o q.id (record s { eng = e; db = db })

        -- `handleQuery` behind `drainClientData`
        abbrev pub after_drain : Query → Session Net Db → Drained Net → Session Net Db × Ending
        after_drain q s drain_failed = (s, stopped)
        after_drain q s drain_out_of_fuel = (s, out_of_fuel)
        after_drain q s (drained n) = run_query q (record s { net = n })

        -- `handleQuery`
        unfoldable pub handle_query : Session Net Db → Session Net Db × Ending
        unfolding run_query drain_client_data
        handle_query s =
            after_read s (w.read_query s.version s.net) (λ q s'.
              after_drain q s' (drain_client_data w (suc (w.size s'.net)) s'.version s'.net))

        -- one packet of the loop of `handleConn`
        unfoldable pub handle_packet : ClientCode → Session Net Db → Session Net Db × Ending
        unfolding handle_query write read_client_block
        handle_packet client_query s = handle_query s
        handle_packet client_ping s = write (pong ∷ []) s
        handle_packet client_data s =
            after_read s (read_client_block w s.version s.net) (λ _ s'. (s', going))
        handle_packet client_cancel s = (s, going)
        handle_packet client_hello s = (s, stopped)
        handle_packet client_other s = (s, stopped)

        -- the loop of `handleConn`
        unfoldable pub serve : ℕ → Session Net Db → Session Net Db × Ending
        unfolding handle_packet
        serve zero s = (s, out_of_fuel)
        serve (suc k) s =
            onward
              (after_read s (w.read_uvarint s.net) (λ c s'. handle_packet (w.client_code c) s'))
              (λ s'. serve k s')

        -- `handleConn`
        unfoldable pub handle_conn : Session Net Db → Session Net Db × Ending
        unfolding handshake serve close_conn
        handle_conn s = close_conn (onward (handshake s) (λ s'. serve (suc (w.size s'.net)) s'))
