-- ===== src/Pg/Session.antt =====
-- internal/pg/handler.go: `session` and its methods. What a session sends, flushes and logs is a list
-- of events; the engine's log and the state of the database go along with it. The proofs are in the
-- modules below.
pub mod Memo
pub mod Skip
pub mod Tx
pub mod Reply
use spoofdb.Base.{
  is_some, ℕ, ◌+◌, Bool, true, false, not, ◌&&◌, List, [], ◌∷◌, ◌++◌, map, Option, none, some, ◌==◌,
  if◌then◌else◌, length,
}
use spoofdb.Text.{Str, codes, Unicode, same, one_of, any_of, trim}
use spoofdb.Text.Dict.{lookup, put, delete}
use spoofdb.Value.{the_result, Value, Column, QueryResult, Outcome, empty_result}
use spoofdb.Value.Print.{Formats}
use spoofdb.Engine.Run.{Engine, Answer, run_on}
use spoofdb.Pg.Params.{max_param_index, substitute_params}
use spoofdb.Pg.Statement.{first_keyword, returns_rows, command_tag}
use spoofdb.Pg.Wire.{
  Frontend, query, parse, bind, describe_msg, execute_msg, sync, flush_msg, close, terminate,
  unknown, Backend, parse_complete, bind_complete, close_complete, no_data, empty_query_response,
  parameter_description, command_complete, error_response, ready_for_query, Event, send, flush,
  row_desc, row_events, row_message, fidelity_events,
}
use spoofdb.Pg.Report.{report}
use spoofdb.Pg.State.{
  Portal, no_portal, Session, no_outcome, emit, tx_status, ready, send_error, statement_sql,
  portal_of, opens_tx, closes_tx, track_tx,
}

module _ ⦃u : Unicode⦄ ⦃fm : Formats⦄ where
  -- `if len(res.Cols) > 0 { … }` of `simpleQuery`
  abbrev pub shown : QueryResult → List Column → List Event
  shown res [] = []
  shown res (c ∷ cs) = send (row_desc res []) ∷ row_events res [] res.rows

  -- `if len(res.Cols) == 0 { … }` of `describe`, and what follows it
  abbrev pub shape : QueryResult → List ℕ → List Column → Backend
  shape res formats [] = no_data
  shape res formats (c ∷ cs) = row_desc res formats

-- the statements of `simpleQuery` that carry nothing
abbrev pub is_blank_query : Str → Bool
is_blank_query sql =
    same (trim (any_of (b';' ∷ b' ' ∷ b'\t' ∷ b'\r' ∷ b'\n' ∷ 11 ∷ 12 ∷ [])) sql) []

module _ {Db : Type 0} (query_context : Db → Str → Db × Answer) ⦃u : Unicode⦄ ⦃fm : Formats⦄ where
  -- `s.eng.RunConn(s.ctx, s.conn, sql)`
  unfoldable pub run_conn : Session Db → Str → Session Db × Outcome
  run_conn s sql =
      let (e, db, outcome) = run_on query_context s.eng s.db sql in
      (record s { eng = e; db = db }, outcome)

  -- `run`
  unfoldable pub run : Session Db → Str → Session Db × Outcome
  unfolding run_conn
  run s sql =
      let (s', outcome) = run_conn s sql in
      if is_some s.last.res && same s.last_sql sql
      then (s, s.last)
      else (record s' { last_sql = sql; last = outcome }, outcome)

  -- `simpleQuery` behind `trackTx`
  unfoldable pub answer_simple : Str → Session Db → Outcome → Session Db
  unfolding ready row_desc row_message fidelity_events
  answer_simple sql s outcome = elim outcome.err [
    | some m ↦ ready (send_error m s)
    | none ↦
        let res = the_result outcome.res in
        ready (
          emit
            (shown res res.cols
              ++ (fidelity_events (report res)
                  ++ send (command_complete (command_tag sql (length res.rows))) ∷ []))
            s)
  ]

  -- `simpleQuery`
  unfoldable pub simple_query : Session Db → Str → Session Db
  simple_query s sql =
      if is_blank_query sql
      then ready (emit (send empty_query_response ∷ []) s)
      else (let (s', outcome) = run_conn s sql in
          answer_simple sql (track_tx sql (is_some outcome.err) s') outcome)

  -- `describe` behind `run`
  unfoldable pub answer_describe : List ℕ → Session Db × Outcome → Session Db
  unfolding row_desc
  answer_describe formats (s, outcome) = elim outcome.err [
    | some m ↦ record (send_error m s) { failed = true }
    | none ↦ let res = the_result outcome.res in emit (send (shape res formats res.cols) ∷ []) s
  ]

  -- `describe` from `if !returnsRows(raw)` on
  unfoldable pub describe_sql : Session Db → Str → List ℕ → Session Db
  describe_sql s raw formats =
      if not (returns_rows raw)
      then emit (send no_data ∷ []) s
      else answer_describe formats (run s (substitute_params raw []))

  -- `describe`
  unfoldable pub describe : Session Db → ℕ → Str → Session Db
  describe s kind name =
      if kind == b'S'
      then (let raw = statement_sql (lookup name s.stmts) in
          describe_sql (emit (send (parameter_description (max_param_index raw)) ∷ []) s) raw [])
      else (let p = portal_of (lookup name s.portals) in describe_sql s p.sql p.formats)

  -- `execute` behind `trackTx`
  unfoldable pub answer_execute : Portal → Session Db → Outcome → Session Db
  unfolding row_message fidelity_events
  answer_execute p s outcome = elim outcome.err [
    | some m ↦ record (send_error m s) { failed = true }
    | none ↦
        let res = the_result outcome.res in
        emit
          (row_events res p.formats res.rows
            ++ (fidelity_events (report res)
                ++ send (command_complete (command_tag p.sql (length res.rows))) ∷ []))
          s
  ]

  -- `execute`
  unfoldable pub execute : Session Db → Str → Session Db
  execute s name =
      let p = portal_of (lookup name s.portals) in
      let (s', outcome) = run s (substitute_params p.sql p.params) in
      answer_execute p (track_tx p.sql (is_some outcome.err) s') outcome

  -- `handle`; the flag says that the connection closes
  unfoldable pub handle : Session Db → Frontend → Session Db × Bool
  handle s (query sql) = (simple_query s sql, false)
  handle s (parse name sql) = (
    if s.failed
        then s
        else emit (send parse_complete ∷ []) (record s { stmts = put name sql s.stmts }),
    false,
  )
  handle s (bind portal stmt params formats) = (
    if s.failed
        then s
        else (let p : Portal = record {
          sql = statement_sql (lookup stmt s.stmts);
          params = params;
          formats = formats;
        } in
            emit (send bind_complete ∷ []) (record s { portals = put portal p s.portals })),
    false,
  )
  handle s (describe_msg kind name) = (if s.failed then s else describe s kind name, false)
  handle s (execute_msg name) = (if s.failed then s else execute s name, false)
  handle s sync = (
    emit (send (ready_for_query (tx_status s)) ∷ flush ∷ [])
        (record s { failed = false; last_sql = []; last = no_outcome }),
    false,
  )
  handle s flush_msg = (emit (flush ∷ []) s, false)
  handle s (close kind name) = (
    emit (send close_complete ∷ []) (
        if kind == b'S'
        then record s { stmts = delete name s.stmts }
        else record s { portals = delete name s.portals }),
    false,
  )
  handle s terminate = (s, true)
  handle s unknown = (s, false)

  -- the loop of `handleConn`, over the messages that the client sends
  unfoldable pub serve : Session Db → List Frontend → Session Db
  serve s [] = s
  serve s (msg ∷ msgs) =
      let (s', quit) = handle s msg in let rest = serve s' msgs in if quit then s' else rest
