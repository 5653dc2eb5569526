-- ===== src/Pg/Startup.antt =====
-- internal/pg/handler.go: `handleConn` and `startup`. What is read and written through pgproto3 and
-- package net is the interface `Link`.
pub mod Greeted
use spoofdb.Base.{
  ℕ, zero, suc, ◌≤◌, ◌≡◌, Bool, true, false, List, [], ◌∷◌, ◌++◌, Option, none, some, ◌⊎◌, inl, inr,
  if◌then◌else◌,
}
use spoofdb.Text.{Str, codes, Unicode}
use spoofdb.Value.Print.{Formats}
use spoofdb.Engine.Run.{Engine, Answer}
use spoofdb.Pg.Wire.{Frontend}
use spoofdb.Pg.State.{Session, no_outcome}
use spoofdb.Pg.Session.{handle}

-- the messages of `ReceiveStartupMessage` that the source tells apart
pub data StartupMsg : Type 0 where
  ssl_request gss_enc_request startup_message other_startup : StartupMsg

-- the messages that `startup` sends
pub data Greeting : Type 0 where
  authentication_ok : Greeting
  parameter_status : Str → Str → Greeting
  backend_key_data : ℕ → List ℕ → Greeting
  first_ready : ℕ → Greeting

-- The calls on a connection, on its states; none is an error, of the connection or of the decoding of
-- a message. `write` is `conn.Write`, `flush_out` is `Flush` of what has been sent; `size` is the
-- number of bytes that the client has yet to send.
pub record Link (Net : Type 0) : Type 0 where
  pub receive_startup : Net → Option (StartupMsg × Net)
  pub receive : Net → Option (Frontend × Net)
  pub write : Str → Net → Option Net
  pub flush_out : List Greeting → Net → Option Net
  pub size : Net → ℕ

-- a message takes a byte at least, and no write puts bytes back
pub record IsLawful {Net : Type 0} (k : Link Net) : Type 0 where
  pub startup_shrinks :
      (n n' : Net) (m : StartupMsg)
      → k.receive_startup n ≡ some (m, n')
      → suc (k.size n') ≤ k.size n
  pub receive_shrinks :
      (n n' : Net) (m : Frontend) → k.receive n ≡ some (m, n') → suc (k.size n') ≤ k.size n
  pub write_keeps : (s : Str) (n n' : Net) → k.write s n ≡ some n' → k.size n' ≤ k.size n
  pub flush_keeps :
      (gs : List Greeting) (n n' : Net) → k.flush_out gs n ≡ some n' → k.size n' ≤ k.size n

-- the parameters of `startup`, in the order in which the map gives them
unfoldable pub parameters : List (Str × Str)
parameters =
    (codes "server_version", codes "15.0 (spoofdb)")
    ∷ (codes "server_encoding", codes "UTF8")
    ∷ (codes "client_encoding", codes "UTF8")
    ∷ (codes "DateStyle", codes "ISO, MDY")
    ∷ (codes "TimeZone", codes "UTC")
    ∷ (codes "integer_datetimes", codes "on")
    ∷ (codes "standard_conforming_strings", codes "on")
    ∷ []

abbrev statuses : List (Str × Str) → List Greeting
statuses [] = []
statuses ((name, value) ∷ ps) = parameter_status name value ∷ statuses ps

-- the answer to a `StartupMessage`
unfoldable pub greeting : List Greeting
unfolding parameters
greeting =
    authentication_ok
    ∷ (statuses parameters ++ backend_key_data 1 (0 ∷ 0 ∷ 0 ∷ 1 ∷ []) ∷ first_ready b'I' ∷ [])

-- What `startup` leaves: the connection, with what the writes that succeeded have written to it before
-- the greeting, and the greeting; an error, with the same; or it has run out of fuel, which does not happen.
pub data Startup (Net : Type 0) : Type 0 where
  greeted : Net → Str → List Greeting → Startup Net
  not_greeted : Str → Startup Net
  startup_out_of_fuel : Startup Net

-- one round of `startup`: an encryption is declined, or it is over
pub data Round (Net : Type 0) : Type 0 where
  declined : Str → Net → Round Net
  over : Startup Net → Round Net

module _ {Net : Type 0} (k : Link Net) where
  -- behind the `Flush` of the greeting
  abbrev pub flushed : Str → Option Net → Round Net
  flushed raw none = over (not_greeted raw)
  flushed raw (some n) = over (greeted n raw greeting)

  -- behind the `Write` of the byte N
  abbrev pub denied : Str → Option Net → Round Net
  denied raw none = over (not_greeted raw)
  denied raw (some n) = declined (raw ++ b'N' ∷ []) n

  -- the `switch` of `startup`; `raw` is what has been written
  unfoldable pub on_startup : Str → Option (StartupMsg × Net) → Round Net
  unfolding greeting
  on_startup raw none = over (not_greeted raw)
  on_startup raw (some (ssl_request, n)) = denied raw (k.write (b'N' ∷ []) n)
  on_startup raw (some (gss_enc_request, n)) = denied raw (k.write (b'N' ∷ []) n)
  on_startup raw (some (startup_message, n)) = flushed raw (k.flush_out greeting n)
  on_startup raw (some (other_startup, n)) = over (not_greeted raw)

  -- `startup`
  unfoldable pub startup : ℕ → Str → Net → Startup Net
  unfolding on_startup
  startup zero raw n = startup_out_of_fuel
  startup (suc fuel) raw n = elim (on_startup raw (k.receive_startup n)) [
    | declined raw' n' ↦ startup fuel raw' n'
    | over x ↦ x
  ]

-- the session of `handleConn`
unfoldable pub new_session : {Db : Type 0} → Engine → Db → Session Db
new_session eng db = record {
  eng = eng;
  db = db;
  stmts = [];
  portals = [];
  failed = false;
  in_tx = false;
  tx_fail = false;
  last_sql = [];
  last = no_outcome;
  out = [];
}

-- What `handleConn` leaves: no database connection, with the error that is logged; a start-up that
-- failed, with the bytes that were written; a session that is over, with these and the greeting; or
-- it has run out of fuel, which does not happen. The database connection, where there is one, and
-- the client's are closed behind each.
pub data Handled (Db : Type 0) : Type 0 where
  not_acquired : Str → Handled Db
  refused : Str → Handled Db
  served : Str → List Greeting → Session Db → Handled Db
  out_of_fuel : Handled Db

module _ {Net Db : Type 0} (k : Link Net) (query_context : Db → Str → Db × Answer) ⦃u : Unicode⦄
    ⦃fm : Formats⦄ where
  -- the loop of `handleConn`: the session, if fuel was enough
  unfoldable pub serve_link : ℕ → Net → Session Db → Option (Session Db)
  unfolding handle
  serve_link zero n s = none
  serve_link (suc fuel) n s = elim (k.receive n) [
    | none ↦ some s
    | some (msg, n') ↦
        let (s', quit) = handle query_context s msg in
        let rest = serve_link fuel n' s' in if quit then some s' else rest
  ]

  abbrev pub finished : Str → List Greeting → Option (Session Db) → Handled Db
  finished raw gs none = out_of_fuel
  finished raw gs (some s) = served raw gs s

  -- `handleConn` behind `startup`
  unfoldable pub after_startup : Engine → Db → Startup Net → Handled Db
  unfolding serve_link new_session
  after_startup eng db startup_out_of_fuel = out_of_fuel
  after_startup eng db (not_greeted raw) = refused raw
  after_startup eng db (greeted n raw gs) =
      finished raw gs (serve_link (suc (k.size n)) n (new_session eng db))

  -- `handleConn`, with what `eng.Conn` gives
  unfoldable pub handle_conn : Engine → Db ⊎ Str → Net → Handled Db
  unfolding after_startup startup
  handle_conn eng (inr m) n = not_acquired m
  handle_conn eng (inl db) n = after_startup eng db (startup k (suc (k.size n)) [] n)
