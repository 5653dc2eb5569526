-- ===== src/Pg/State.antt =====
-- internal/pg/handler.go: `portal`, `session`, and the state of the transaction.
use spoofdb.Base.{
  ℕ, Bool, true, false, ◌&&◌, List, [], ◌∷◌, ◌++◌, Option, none, some, if◌then◌else◌,
}
use spoofdb.Text.{Str, codes, Unicode, one_of}
use spoofdb.Value.{Outcome}
use spoofdb.Engine.Run.{Engine}
use spoofdb.Pg.Statement.{first_keyword}
use spoofdb.Pg.Wire.{error_response, ready_for_query, Event, send, flush}

-- `portal`
pub record Portal : Type 0 where
  pub sql : Str
  pub params : List (Option Str)
  pub formats : List ℕ

abbrev pub no_portal : Portal
no_portal = record { sql = []; params = []; formats = [] }

-- `session`; `last` is `lastRes` and `lastErr`. `conn` and `ctx` are part of `db`.
pub record Session (Db : Type 0) : Type 0 where
  pub eng : Engine
  pub db : Db
  pub stmts : List (Str × Str)
  pub portals : List (Str × Portal)
  pub failed : Bool
  pub in_tx : Bool
  pub tx_fail : Bool
  pub last_sql : Str
  pub last : Outcome
  pub out : List Event

abbrev pub no_outcome : Outcome
no_outcome = record { res = none; err = none }

module _ {Db : Type 0} where
  abbrev pub emit : List Event → Session Db → Session Db
  emit events s = record s { out = s.out ++ events }

  -- `txStatus`
  unfoldable pub tx_status : Session Db → ℕ
  tx_status s = if s.tx_fail then b'E' else if s.in_tx then b'T' else b'I'

  -- `ready`
  unfoldable pub ready : Session Db → Session Db
  unfolding tx_status
  ready s = emit (send (ready_for_query (tx_status s)) ∷ flush ∷ []) s

  -- `sendError`
  abbrev pub send_error : Str → Session Db → Session Db
  send_error m = emit (send (error_response m) ∷ [])

-- a missing statement has the empty text, a missing portal is `&portal{}`
abbrev pub statement_sql : Option Str → Str
statement_sql none = []
statement_sql (some sql) = sql

abbrev pub portal_of : Option Portal → Portal
portal_of none = no_portal
portal_of (some p) = p

-- `trackTx`; the flag says that the statement failed
abbrev pub opens_tx : Str → Bool
opens_tx word = one_of word (codes "BEGIN" ∷ codes "START" ∷ [])

abbrev pub closes_tx : Str → Bool
closes_tx word = one_of word (codes "COMMIT" ∷ codes "ROLLBACK" ∷ codes "END" ∷ [])

module _ {Db : Type 0} ⦃u : Unicode⦄ where
  unfoldable pub track_tx : Str → Bool → Session Db → Session Db
  track_tx sql erred s =
      if opens_tx (first_keyword sql)
      then record s { in_tx = true; tx_fail = false }
      else if closes_tx (first_keyword sql)
      then record s { in_tx = false; tx_fail = false }
      else if erred && s.in_tx
      then record s { tx_fail = true }
      else s
