-- ===== src/Clickhouse/Session/Talk.antt =====
-- All that a ClickHouse client is sent on a connection.
use spoofdb.Base.{◌≡◌, List, [], ◌∷◌, ◌++◌, ◌⊎◌}
use spoofdb.Base.Int.{ℤ}
use spoofdb.Clickhouse.Wire.{Packet, server_hello, pong, Wire}
use spoofdb.Clickhouse.Packets.Blocks.{IsReply}
use spoofdb.Clickhouse.Session.{Session, Ending, stopped, hello_of_server, negotiated}

module _ {Net : Type 0} (w : Wire Net) where
  -- a conversation: the server's Hello, with the revision from the client's, then a Pong or the
  -- reply to a query at a time
  pub data IsTalk : List Packet → Type 0 where
    greeted :
        (v : ℤ) → IsTalk (server_hello (hello_of_server w) (negotiated w.server_revision v) ∷ [])
    ponged : (ps : List Packet) → IsTalk ps → IsTalk (ps ++ pong ∷ [])
    answered : (ps qs : List Packet) → IsTalk ps → IsReply qs → IsTalk (ps ++ qs)

  -- what a client has been sent, in whole and in part
  abbrev pub IsSent : List Packet → List Packet → Type 0
  IsSent sent lost = ((sent ≡ []) ⊎ IsTalk sent) × ((lost ≡ []) ⊎ IsTalk (sent ++ lost))

module _ {Net Db : Type 0} (w : Wire Net) where
  -- a session with a conversation and without a lost buffer
  abbrev HasTalk : Session Net Db → Type 0
  HasTalk s = IsTalk w s.sent × (s.lost ≡ [])

  -- behind a step, a conversation, and one that goes on with the buffer that was lost, if one was
  abbrev Talks : Session Net Db × Ending → Type 0
  Talks r =
      IsTalk w r.0.sent × ((r.0.lost ≡ []) ⊎ ((r.1 ≡ stopped) × IsTalk w (r.0.sent ++ r.0.lost)))

  -- nothing has been sent and the connection stops, with no buffer or the Hello lost, or a
  -- conversation has begun
  abbrev IsOpened : Session Net Db × Ending → Type 0
  IsOpened r =
      ((r.0.sent ≡ []) × (r.1 ≡ stopped) × ((r.0.lost ≡ []) ⊎ IsTalk w (r.0.sent ++ r.0.lost)))
      ⊎ Talks r
