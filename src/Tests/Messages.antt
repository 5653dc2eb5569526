-- ===== src/Tests/Messages.antt =====
-- A Postgres session on the database of the tests.
use spoofdb.Engine.Run.{run_on, settle, buffer, fetch, columns_of, normalize}
use spoofdb.Text.Dict.{lookup}
use spoofdb.Pg.Statement.{returns_rows, first_keyword}
use spoofdb.Pg.Params.{
  max_param_index, substitute_params, scan_params, scan_from, round, param_literal, atoi, digits,
  quoted,
}
use spoofdb.Text.{
  Str, codes, contains, has_prefix, replace_char, to_upper, upper, until, any_of, trim_space, trim,
  trim_end, drop_while, is_space, one_of, same,
}
use spoofdb.Base.{is_some, ◌≡◌, refl, true, false, List, [], ◌∷◌, ◌++◌}
use spoofdb.Pg.Wire.{Frontend, query, parse, bind, execute_msg, sync, send, flush, ready_for_query}
use spoofdb.Pg.Session.{
  answer_execute, answer_describe, describe_sql, run_conn, run, execute, describe, simple_query,
  handle, serve,
}
use spoofdb.Pg.State.{track_tx, Session, no_outcome, tx_status}
use spoofdb.Pg.Session.Memo.{bound, ran, told, execute_repeated, execute_described}
use spoofdb.Pg.Session.Skip.{serve_resync}
use spoofdb.Pg.Session.Tx.{tx_of, after, status_byte, IsTx, tx_of-handle}
use spoofdb.Pg.Session.Reply.{IsReply, simple_query-IsReply}
use spoofdb.Tests.Fixtures.{no_case, no_formats, database, session, select_portal, insert_portal}

-- `INSERT INTO t VALUES ('it''s')`, executed
abbrev inserted : Session (List Str)
inserted = execute database session (codes "i")

inserted_res : is_some inserted.last.res ≡ true
unfolding execute answer_execute run run_conn run_on settle buffer fetch columns_of normalize
    contains has_prefix substitute_params scan_params scan_from lookup round param_literal atoi
    digits quoted replace_char track_tx first_keyword to_upper upper until any_of trim_space trim
    trim_end drop_while is_space one_of same
inserted_res = refl

execute_repeated_example :
    ((execute database inserted (codes "i")).db ≡ inserted.db)
    × ((execute database inserted (codes "i")).eng ≡ inserted.eng)
    × ((execute database inserted (codes "i")).out
        ≡ (session.out
            ++ told database
                (bound database session (codes "i"))
                (ran database session (codes "i")).1)
          ++ told database
              (bound database session (codes "i"))
              (ran database session (codes "i")).1)
execute_repeated_example = execute_repeated database session (codes "i") inserted_res

-- `SELECT * FROM t`, described
abbrev described : Session (List Str)
described = describe database session b'P' (codes "s")

described_res : is_some described.last.res ≡ true
unfolding describe describe_sql answer_describe returns_rows max_param_index run run_conn run_on
    settle buffer fetch columns_of normalize contains has_prefix substitute_params scan_params
    scan_from lookup round param_literal atoi digits quoted replace_char first_keyword to_upper
    upper until any_of trim_space trim trim_end drop_while is_space one_of same
described_res = refl

select_returns : returns_rows select_portal.sql ≡ true
unfolding returns_rows first_keyword to_upper upper until any_of trim_space trim trim_end drop_while
    is_space one_of same
select_returns = refl

select_params : max_param_index select_portal.sql ≡ 0
unfolding max_param_index scan_params scan_from round atoi digits
select_params = refl

insert_returns : returns_rows insert_portal.sql ≡ false
unfolding returns_rows first_keyword to_upper upper until any_of trim_space trim trim_end drop_while
    is_space one_of same
insert_returns = refl

execute_described_example :
    ((execute database described (codes "s")).db ≡ described.db)
    × ((execute database described (codes "s")).eng ≡ described.eng)
    × ((execute database described (codes "s")).out
        ≡ described.out
          ++ told database
              (bound database session (codes "s"))
              (run database session (bound database session (codes "s")).sql).1)
unfolding lookup same
execute_described_example =
    execute_described database session b'P' (codes "s") refl select_returns select_params
      described_res

abbrev not_described : Session (List Str)
not_described = describe database session b'P' (codes "i")

abbrev failed_session : Session (List Str)
failed_session = record session { failed = true }

abbrev skipped : List Frontend
skipped = parse [] (codes "SELECT 1") ∷ bind [] [] [] [] ∷ execute_msg [] ∷ []

serve_resync_example :
    serve database failed_session (skipped ++ sync ∷ query (codes "SELECT 2") ∷ [])
    ≡ serve database
        (record failed_session {
          failed = false;
          last_sql = [];
          last = no_outcome;
          out =
              failed_session.out ++ send (ready_for_query (tx_status failed_session)) ∷ flush ∷ [];
        })
        (query (codes "SELECT 2") ∷ [])
serve_resync_example =
    serve_resync database failed_session skipped (query (codes "SELECT 2") ∷ []) refl
      (tt, (tt, (tt, tt)))

abbrev open_tx : Session (List Str)
open_tx = record session { in_tx = true }

abbrev on_ghosts : Frontend
on_ghosts = query (codes "SELECT * FROM ghosts")

tx_of-handle_example :
    (tx_of (handle database open_tx on_ghosts).0 ≡ after database open_tx on_ghosts)
    × (tx_status (handle database open_tx on_ghosts).0
        ≡ status_byte (after database open_tx on_ghosts))
    × IsTx (handle database open_tx on_ghosts).0
tx_of-handle_example = tx_of-handle database open_tx on_ghosts refl

simple_query-IsReply_example :
    IsReply open_tx (simple_query database open_tx (codes "SELECT * FROM ghosts"))
simple_query-IsReply_example = simple_query-IsReply database open_tx (codes "SELECT * FROM ghosts")
