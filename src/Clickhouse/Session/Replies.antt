-- ===== src/Clickhouse/Session/Replies.antt =====
-- What a ClickHouse client is sent: an answer to each query, and nothing else but Hello and Pong.
use mathlib.Core.Path.{subst}
use spoofdb.Base.{
  suc, ◌≡◌, refl, List, [], ◌∷◌, ◌++◌, Option, none, some, inl, inr, arith, length, Option-cases,
}
use spoofdb.Text.{Str, Unicode}
use spoofdb.Value.{QueryResult, Outcome, the_result}
use spoofdb.Value.Print.{Formats}
use spoofdb.Fidelity.{Report}
use spoofdb.Engine.Run.{Answer, run_on}
use spoofdb.Engine.Run.Square.{IsTable, IsSquare, run_on-IsSquare}
use spoofdb.Clickhouse.Columns.Shape.{IsWide}
use spoofdb.Clickhouse.Report.{report}
use spoofdb.Clickhouse.Wire.{Query, Packet, Wire}
use spoofdb.Clickhouse.Packets.{exception_packet}
use spoofdb.Clickhouse.Packets.Blocks.{IsReply, Holds, result_packets-IsReply}
use spoofdb.Clickhouse.Session.{
  Session, Ending, going, stopped, drained, drain_client_data, write, after_read, write_built,
  log_summary, send_result, reply, answer, run_query, after_drain, handle_query,
}

exception_packet-IsReply : (m : Str) → IsReply (exception_packet m ∷ [])
unfolding exception_packet
exception_packet-IsReply m = record {
  body = [];
  last = exception_packet m;
  split = refl;
  blocks = tt;
  final = tt;
}

the_result-IsWide :
    (o : Option QueryResult) (o' : Outcome)
    → o'.res ≡ o
    → IsSquare o'
    → IsWide (length (the_result o).cols) (the_result o).rows
the_result-IsWide none o' e h = tt
the_result-IsWide (some r) o' e h = rw e at h

module _ {Net Db : Type 0} (w : Wire Net) where
  -- the end of a query, behind these packets and a lost buffer: the client has one reply more, or the
  -- write of that reply failed and the connection stops
  pub data IsTurn (before gone : List Packet) (r : Session Net Db × Ending) : Type 0 where
    unsent :
        (ps : List Packet) (n : Net)
        → IsReply ps
        → w.write ps n ≡ none
        → r.1 ≡ stopped
        → r.0.sent ≡ before
        → r.0.lost ≡ ps
        → IsTurn before gone r
    replied :
        (ps : List Packet)
        → IsReply ps
        → r.1 ≡ going
        → r.0.sent ≡ before ++ ps
        → r.0.lost ≡ gone
        → IsTurn before gone r

  write-IsTurn :
      (ps : List Packet) (s : Session Net Db) → IsReply ps → IsTurn s.sent s.lost (write w ps s)
  unfolding write
  write-IsTurn ps s h = elim (Option-cases (w.write ps s.net)) [
    | inl q ↦ rw (q, write) (unsent ps s.net h q refl refl refl)
    | inr (n, q) ↦ rw (q, write) (replied ps h refl refl refl)
  ]

  write_built-IsTurn :
      (o : Option (List Packet)) (s : Session Net Db)
      → Holds IsReply o
      → IsTurn s.sent s.lost (write_built w o s)
  write_built-IsTurn none s h = absurd h
  write_built-IsTurn (some ps) s h = write-IsTurn ps s h

  module _ ⦃u : Unicode⦄ ⦃fm : Formats⦄ where
    log_summary_sent : (rep : Report) (s : Session Net Db) → (log_summary rep s).sent ≡ s.sent
    unfolding log_summary
    log_summary_sent rep s = ground arith

    log_summary_lost : (rep : Report) (s : Session Net Db) → (log_summary rep s).lost ≡ s.lost
    unfolding log_summary
    log_summary_lost rep s = ground arith

    reply-IsTurn :
        (res : QueryResult) (id : Str) (s : Session Net Db)
        → IsWide (length res.cols) res.rows
        → IsTurn s.sent s.lost (reply w res id s)
    unfolding reply send_result
    reply-IsTurn res id s h =
        let rep = report res in
        subst (λ before. IsTurn before s.lost (reply w res id s)) (log_summary_sent rep s)
          (subst (λ gone. IsTurn (log_summary rep s).sent gone (reply w res id s))
            (log_summary_lost rep s)
            (write_built-IsTurn _ (log_summary rep s) (result_packets-IsReply w _ res id rep _ h)))

    answer-IsTurn :
        (o : Outcome) (id : Str) (s : Session Net Db)
        → IsSquare o
        → IsTurn s.sent s.lost (answer w o id s)
    unfolding answer
    answer-IsTurn o id s h = elim (Option-cases o.err) [
      | inl q ↦
          rw (q, answer) (reply-IsTurn (the_result o.res) id s (the_result-IsWide o.res o refl h))
      | inr (m, q) ↦ rw (q, answer) (write-IsTurn _ s (exception_packet-IsReply m))
    ]

    module _ (query_context : Db → Str → Db × Answer) where
      module _ (driver : (db : Db) (q : Str) → IsTable (query_context db q).1) where
        pub run_query-IsTurn :
            (q : Query) (s : Session Net Db) → IsTurn s.sent s.lost (run_query w query_context q s)
        unfolding run_query
        run_query-IsTurn q s =
            let (e, db, o) = run_on query_context s.eng s.db q.body in
            answer-IsTurn o q.id (record s { eng = e; db = db })
              (run_on-IsSquare query_context s.eng s.db q.body (driver s.db q.body))

        -- A query that has been read, with the data behind it, is answered by one reply: blocks that
        -- can be encoded and one EndOfStream or Exception behind them. Only if the write of
        -- that reply fails is it not answered in full, and then the connection stops.
        pub handle_query-IsTurn :
            (s : Session Net Db) (q : Query) (n n' : Net)
            → w.read_query s.version s.net ≡ some (q, n)
            → drain_client_data w (suc (w.size n)) s.version n ≡ drained n'
            → IsTurn s.sent s.lost (handle_query w query_context s)
        unfolding handle_query
        handle_query-IsTurn s q n n' e d =
            rw (e, after_read, d, after_drain) (run_query-IsTurn q (record s { net = n' }))
