-- ===== src/Pg/Session/Skip.antt =====
-- After an error of the extended protocol, messages are skipped up to the next Sync.
use spoofdb.Base.{◌≡◌, refl, ◌∙◌, true, false, List, [], ◌∷◌, ◌++◌, arith, All}
use spoofdb.Text.{Str, Unicode}
use spoofdb.Value.Print.{Formats}
use spoofdb.Engine.Run.{Answer}
use spoofdb.Pg.Wire.{
  Frontend, parse, bind, describe_msg, execute_msg, sync, ready_for_query, send, flush,
}
use spoofdb.Pg.Session.{handle, serve}
use spoofdb.Pg.State.{Session, no_outcome, tx_status}

-- the messages that a session skips behind an error
abbrev pub IsExtended : Frontend → Type 0
IsExtended (parse name sql) = Unit
IsExtended (bind portal stmt params formats) = Unit
IsExtended (describe_msg kind name) = Unit
IsExtended (execute_msg name) = Unit
IsExtended _ = ⊥

module _ {Db : Type 0} (query_context : Db → Str → Db × Answer) ⦃u : Unicode⦄ ⦃fm : Formats⦄ where
  handle_failed :
      (s : Session Db) (msg : Frontend)
      → s.failed ≡ true
      → IsExtended msg
      → handle query_context s msg ≡ (s, false)
  unfolding handle
  handle_failed s (parse name sql) f h = ground arith
  handle_failed s (bind portal stmt params formats) f h = ground arith
  handle_failed s (describe_msg kind name) f h = ground arith
  handle_failed s (execute_msg name) f h = ground arith
  handle_failed s _ f h = absurd h

  serve_one :
      (s : Session Db) (msg : Frontend) (rest : List Frontend)
      → s.failed ≡ true
      → IsExtended msg
      → serve query_context s (msg ∷ rest) ≡ serve query_context s rest
  unfolding serve
  serve_one s msg rest f h = rw (handle_failed s msg f h)

  serve_failed :
      (s : Session Db) (skipped rest : List Frontend)
      → s.failed ≡ true
      → All IsExtended skipped
      → serve query_context s (skipped ++ rest) ≡ serve query_context s rest
  serve_failed s [] rest f h = refl
  serve_failed s (msg ∷ skipped) rest f h =
      serve_one s msg (skipped ++ rest) f h.0 ∙ serve_failed s skipped rest f h.1

  -- A session that has failed changes nothing and answers nothing on any number of Parse, Bind,
  -- Describe and Execute messages; a Sync behind them is answered with one ReadyForQuery, forgets the
  -- memo and lets the messages behind it be served again. (Close and Flush are not among the messages
  -- that are skipped.)
  pub serve_resync :
      (s : Session Db) (skipped rest : List Frontend)
      → s.failed ≡ true
      → All IsExtended skipped
      → serve query_context s (skipped ++ sync ∷ rest)
        ≡ serve query_context
            (record s {
              failed = false;
              last_sql = [];
              last = no_outcome;
              out = s.out ++ send (ready_for_query (tx_status s)) ∷ flush ∷ [];
            })
            rest
  serve_resync s skipped rest f h =
      serve_failed s skipped (sync ∷ rest) f h ∙ (unfold serve handle tx_status in refl)
