-- ===== src/Pg/Session/Tx.antt =====
-- The transaction state that a session reports.
use spoofdb.Base.{
  is_some, ℕ, ◌≡◌, refl, ◌∙◌, ap, Bool, true, false, not, ◌||◌, List, [], ◌∷◌, arith, ◌==◌,
  if◌then◌else◌, Bool-cases, Option-cases, inl, inr,
}
use spoofdb.Text.{Str, Unicode}
use spoofdb.Text.Dict.{lookup}
use spoofdb.Value.{Outcome}
use spoofdb.Value.Print.{Formats}
use spoofdb.Engine.Run.{Answer}
use spoofdb.Pg.Params.{max_param_index, substitute_params}
use spoofdb.Pg.Statement.{first_keyword}
use spoofdb.Pg.Wire.{
  Frontend, query, parse, bind, describe_msg, execute_msg, sync, flush_msg, close, terminate,
  unknown, send, parameter_description,
}
use spoofdb.Pg.Session.{
  is_blank_query, run_conn, run, answer_simple, simple_query, answer_describe, describe_sql,
  describe, answer_execute, execute, handle,
}
use spoofdb.Pg.State.{
  Session, Portal, opens_tx, closes_tx, portal_of, statement_sql, tx_status, ready, track_tx, emit,
}

-- no transaction, one that is open, one in which a statement has failed
pub data TxState : Type 0 where
  idle active broken : TxState

-- the byte of ReadyForQuery
abbrev pub status_byte : TxState → ℕ
status_byte idle = b'I'
status_byte active = b'T'
status_byte broken = b'E'

-- what a statement does to it: its first word, and whether it failed
abbrev pub advance : Str → Bool → TxState → TxState
advance word erred st =
    if opens_tx word
    then active
    else if closes_tx word
    then idle
    else elim st [ idle ↦ idle | active ↦ (if erred then broken else active) | broken ↦ broken ]

module _ {Db : Type 0} where
  abbrev pub tx_of : Session Db → TxState
  tx_of s = if s.tx_fail then broken else if s.in_tx then active else idle

  -- only an open transaction has failed
  abbrev pub IsTx : Session Db → Type 0
  IsTx s = (not s.tx_fail || s.in_tx) ≡ true

  tx_status-tx_of : (s : Session Db) → tx_status s ≡ status_byte (tx_of s)
  unfolding tx_status
  tx_status-tx_of s = ground arith

  -- the two flags of one session are those of another
  abbrev SameTx : Session Db → Session Db → Type 0
  SameTx s t = (s.in_tx ≡ t.in_tx) × (s.tx_fail ≡ t.tx_fail)

  tx_of-SameTx : (s t : Session Db) → SameTx s t → tx_of s ≡ tx_of t
  tx_of-SameTx s t h = ground arith

  IsTx-SameTx : (s t : Session Db) → SameTx s t → IsTx t → IsTx s
  IsTx-SameTx s t h i = ground arith

module _ {Db : Type 0} ⦃u : Unicode⦄ where
  tx_of-track_tx :
      (sql : Str) (erred : Bool) (s : Session Db)
      → IsTx s
      → tx_of (track_tx sql erred s) ≡ advance (first_keyword sql) erred (tx_of s)
  unfolding track_tx
  tx_of-track_tx sql erred s i = ground arith

  track_tx-IsTx : (sql : Str) (erred : Bool) (s : Session Db) → IsTx s → IsTx (track_tx sql erred s)
  unfolding track_tx
  track_tx-IsTx sql erred s i = ground arith

module _ {Db : Type 0} (query_context : Db → Str → Db × Answer) ⦃u : Unicode⦄ ⦃fm : Formats⦄ where
  run-SameTx : (s : Session Db) (sql : Str) → SameTx (run query_context s sql).0 s
  unfolding run
  run-SameTx s sql = ground arith

  answer_simple-SameTx :
      (sql : Str) (s : Session Db) (o : Outcome) → SameTx (answer_simple query_context sql s o) s
  unfolding answer_simple
  answer_simple-SameTx sql s o = elim (Option-cases o.err) [
    | inl n ↦ rw n (refl, refl)
    | inr (m, y) ↦ rw y (refl, refl)
  ]

  answer_execute-SameTx :
      (p : Portal) (s : Session Db) (o : Outcome) → SameTx (answer_execute query_context p s o) s
  unfolding answer_execute
  answer_execute-SameTx p s o = elim (Option-cases o.err) [
    | inl n ↦ rw n (refl, refl)
    | inr (m, y) ↦ rw y (refl, refl)
  ]

  answer_describe-SameTx :
      (formats : List ℕ) (s : Session Db) (o : Outcome)
      → SameTx (answer_describe query_context formats (s, o)) s
  unfolding answer_describe
  answer_describe-SameTx formats s o = elim (Option-cases o.err) [
    | inl n ↦ rw n (refl, refl)
    | inr (m, y) ↦ rw y (refl, refl)
  ]

  -- what one message does to the transaction state
  abbrev pub after : Session Db → Frontend → TxState
  after s (query sql) =
      if is_blank_query sql
      then tx_of s
      else advance (first_keyword sql) (is_some (run_conn query_context s sql).1.err) (tx_of s)
  after s (execute_msg name) =
      let p = portal_of (lookup name s.portals) in
      if s.failed
      then tx_of s
      else advance (first_keyword p.sql)
          (is_some (run query_context s (substitute_params p.sql p.params)).1.err) (tx_of s)
  after s _ = tx_of s

  describe_sql-SameTx :
      (s : Session Db) (raw : Str) (formats : List ℕ)
      → SameTx (describe_sql query_context s raw formats) s
  unfolding describe_sql
  describe_sql-SameTx s raw formats =
      let r = run query_context s (substitute_params raw []) in
      ground (
        arith,
        (answer_describe-SameTx formats r.0 r.1).0,
        (answer_describe-SameTx formats r.0 r.1).1,
        (run-SameTx s (substitute_params raw [])).0,
        (run-SameTx s (substitute_params raw [])).1,
      )

  describe-SameTx :
      (s : Session Db) (kind : ℕ) (name : Str) → SameTx (describe query_context s kind name) s
  unfolding describe
  describe-SameTx s kind name = elim (Bool-cases (kind == b'S')) [
    | inl y ↦ rw y (
        describe_sql-SameTx
          (emit
            (send (parameter_description (max_param_index (statement_sql (lookup name s.stmts))))
              ∷ [])
            s)
          _ _)
    | inr n ↦ rw n (describe_sql-SameTx s _ _)
  ]

  -- a session that has the flags of a tracked one
  by_track :
      (s t : Session Db) (sql : Str) (erred : Bool) (r : Session Db)
      → SameTx r s
      → SameTx t (track_tx sql erred r)
      → IsTx s
      → (tx_of t ≡ advance (first_keyword sql) erred (tx_of s)) × IsTx t
  by_track s t sql erred r e f i =
      let j = IsTx-SameTx r s e i in
      (
        tx_of-SameTx t (track_tx sql erred r) f
            ∙ tx_of-track_tx sql erred r j
            ∙ ap (advance (first_keyword sql) erred) (tx_of-SameTx r s e),
        IsTx-SameTx t (track_tx sql erred r) f (track_tx-IsTx sql erred r j),
      )

  tx_of-simple_query :
      (s : Session Db) (sql : Str)
      → IsTx s
      → (tx_of (simple_query query_context s sql) ≡ after s (query sql))
        × IsTx (simple_query query_context s sql)
  unfolding simple_query
  tx_of-simple_query s sql i = elim (Bool-cases (is_blank_query sql)) [
    | inl y ↦ rw y (unfold ready in (refl, i))
    | inr n ↦
        let r = run_conn query_context s sql in
        let e = is_some r.1.err in
        rw n (
          by_track s (answer_simple query_context sql (track_tx sql e r.0) r.1) sql e r.0
            (unfold run_conn in (refl, refl)) (answer_simple-SameTx sql (track_tx sql e r.0) r.1) i)
  ]

  tx_of-execute :
      (s : Session Db) (name : Str)
      → IsTx s
      → (tx_of (execute query_context s name) ≡ (
          let p = portal_of (lookup name s.portals) in
          advance
            (first_keyword p.sql)
            (is_some (run query_context s (substitute_params p.sql p.params)).1.err)
            (tx_of s)))
        × IsTx (execute query_context s name)
  unfolding execute
  tx_of-execute s name i =
      let p = portal_of (lookup name s.portals) in
      let r = run query_context s (substitute_params p.sql p.params) in
      let e = is_some r.1.err in
      by_track s (answer_execute query_context p (track_tx p.sql e r.0) r.1) p.sql e r.0
        (run-SameTx s (substitute_params p.sql p.params))
        (answer_execute-SameTx p (track_tx p.sql e r.0) r.1) i

  if_unchanged :
      (b : Bool) (s t : Session Db)
      → SameTx t s
      → IsTx s
      → (tx_of (if b then s else t) ≡ tx_of s) × IsTx (if b then s else t)
  if_unchanged true s t e i = (refl, i)
  if_unchanged false s t e i = (tx_of-SameTx t s e, IsTx-SameTx t s e i)

  if_failed :
      (s t : Session Db) (st : TxState)
      → IsTx s
      → (tx_of t ≡ st) × IsTx t
      → (tx_of (if s.failed then s else t) ≡ (if s.failed then tx_of s else st))
        × IsTx (if s.failed then s else t)
  if_failed s t st i h = elim (Bool-cases s.failed) [ inl y ↦ rw y (refl, i) | inr n ↦ rw n h ]

  state :
      (s : Session Db) (msg : Frontend)
      → IsTx s
      → (tx_of (handle query_context s msg).0 ≡ after s msg) × IsTx (handle query_context s msg).0
  unfolding handle
  state s (query sql) i = tx_of-simple_query s sql i
  state s (execute_msg name) i =
      if_failed s (execute query_context s name) _ i (tx_of-execute s name i)
  state s (parse name sql) i = ground (arith, i)
  state s (bind portal stmt params formats) i = ground (arith, i)
  state s (describe_msg kind name) i =
      if_unchanged s.failed s (describe query_context s kind name) (describe-SameTx s kind name) i
  state s sync i = (refl, i)
  state s flush_msg i = (refl, i)
  state s (close kind name) i = ground (arith, i)
  state s terminate i = (refl, i)
  state s unknown i = (refl, i)

  -- On every message, the state that a session reports moves as follows, from any in which only an
  -- open transaction has failed. A statement that is run and whose first word is BEGIN or START leaves
  -- an open transaction that has not failed, also where the statement fails or the one that was open
  -- had failed; one whose word is COMMIT, ROLLBACK or END leaves none, also where it fails; any other
  -- that fails in an open one marks it as failed, and one that does not fail changes nothing. Parse,
  -- Bind, Describe, Sync and the others, blank queries, and Execute in a session that skips to the
  -- next Sync change nothing. ReadyForQuery shows I, T or E for the state, and again only an open
  -- transaction has failed.
  pub tx_of-handle :
      (s : Session Db) (msg : Frontend)
      → IsTx s
      → (tx_of (handle query_context s msg).0 ≡ after s msg)
        × (tx_status (handle query_context s msg).0 ≡ status_byte (after s msg))
        × IsTx (handle query_context s msg).0
  tx_of-handle s msg i =
      let (a, b) = state s msg i in
      (a, tx_status-tx_of (handle query_context s msg).0 ∙ ap status_byte a, b)
