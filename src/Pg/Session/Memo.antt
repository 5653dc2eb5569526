-- ===== src/Pg/Session/Memo.antt =====
-- When a statement of the extended protocol reaches the engine, and when the memo answers for it.
use spoofdb.Base.{
  is_some, ℕ, ◌≡◌, refl, sym, ◌∙◌, ap, ap₂, Bool, true, false, List, [], ◌∷◌, ◌++◌, none, some,
  arith, ◌==◌, Option-cases, inl, inr, length,
}
use spoofdb.Text.{Str, Unicode}
use spoofdb.Text.Laws.{same_refl, same_iff}
use spoofdb.Text.Dict.{lookup}
use spoofdb.Value.{the_result, Outcome}
use spoofdb.Value.Print.{Formats}
use spoofdb.Engine.Run.{Answer}
use spoofdb.Pg.Params.{max_param_index, substitute_params}
use spoofdb.Pg.Params.Unchanged.{substitute_params-eq_self}
use spoofdb.Pg.Statement.{returns_rows, command_tag}
use spoofdb.Pg.Wire.{
  send, no_data, Event, error_response, command_complete, row_events, fidelity_events,
}
use spoofdb.Pg.Report.{report}
use spoofdb.Pg.Session.{run, answer_describe, describe_sql, describe, answer_execute, execute}
use spoofdb.Pg.State.{Portal, Session, portal_of, track_tx, emit}

module _ {Db : Type 0} ⦃u : Unicode⦄ where
  -- what `trackTx` leaves alone
  track_tx_frame :
      (sql : Str) (b : Bool) (s : Session Db)
      → record (track_tx sql b s) { in_tx = s.in_tx; tx_fail = s.tx_fail } ≡ s
  unfolding track_tx
  track_tx_frame sql b s = ground arith

module _ {Db : Type 0} (query_context : Db → Str → Db × Answer) ⦃u : Unicode⦄ ⦃fm : Formats⦄ where
  run_hit :
      (s : Session Db) (sql : Str)
      → is_some s.last.res ≡ true
      → s.last_sql ≡ sql
      → run query_context s sql ≡ (s, s.last)
  unfolding run
  run_hit s sql h e = ground (arith, same_refl sql)

  -- the memo holds what `run` has just returned
  run_memo :
      (s : Session Db) (sql : Str)
      → ((run query_context s sql).0.last ≡ (run query_context s sql).1)
        × ((run query_context s sql).0.last_sql ≡ sql)
        × ((run query_context s sql).0.portals ≡ s.portals)
        × ((run query_context s sql).0.out ≡ s.out)
  unfolding run
  run_memo s sql = ground (arith, same_iff s.last_sql sql)

  -- what the client is told of an outcome
  abbrev pub told : Portal → Outcome → List Event
  told p outcome = elim outcome.err [
    | some m ↦ send (error_response m) ∷ []
    | none ↦
        let res = the_result outcome.res in
        row_events res p.formats res.rows
        ++ (fidelity_events (report res)
            ++ send (command_complete (command_tag p.sql (length res.rows))) ∷ [])
  ]

  answer_execute_frame :
      (p : Portal) (s : Session Db) (o : Outcome)
      → ((answer_execute query_context p s o).out ≡ s.out ++ told p o)
        × ((answer_execute query_context p s o).db ≡ s.db)
        × ((answer_execute query_context p s o).eng ≡ s.eng)
        × ((answer_execute query_context p s o).last ≡ s.last)
        × ((answer_execute query_context p s o).last_sql ≡ s.last_sql)
        × ((answer_execute query_context p s o).portals ≡ s.portals)
  unfolding answer_execute
  answer_execute_frame p s o = elim (Option-cases o.err) [
    | inl n ↦ rw n (refl, refl, refl, refl, refl, refl)
    | inr (m, y) ↦ rw y (refl, refl, refl, refl, refl, refl)
  ]

  track_tx_fields :
      (sql : Str) (b : Bool) (s : Session Db)
      → ((track_tx sql b s).out ≡ s.out)
        × ((track_tx sql b s).db ≡ s.db)
        × ((track_tx sql b s).eng ≡ s.eng)
        × ((track_tx sql b s).last ≡ s.last)
        × ((track_tx sql b s).last_sql ≡ s.last_sql)
        × ((track_tx sql b s).portals ≡ s.portals)
  unfolding track_tx
  track_tx_fields sql b s = ground arith

  module _ (s : Session Db) (name : Str) where
    abbrev pub bound : Portal
    bound = portal_of (lookup name s.portals)

    abbrev pub text_of : Str
    text_of = substitute_params bound.sql bound.params

    abbrev pub ran : Session Db × Outcome
    ran = run query_context s text_of

    execute_frame :
        ((execute query_context s name).out ≡ s.out ++ told bound ran.1)
        × ((execute query_context s name).db ≡ ran.0.db)
        × ((execute query_context s name).eng ≡ ran.0.eng)
        × ((execute query_context s name).last ≡ ran.1)
        × ((execute query_context s name).last_sql ≡ text_of)
        × ((execute query_context s name).portals ≡ s.portals)
    unfolding execute
    execute_frame =
        let (m1, m2, m3, m4) = run_memo s text_of in
        let t = track_tx bound.sql (is_some ran.1.err) ran.0 in
        let (t1, t2, t3, t4, t5, t6) = track_tx_fields bound.sql (is_some ran.1.err) ran.0 in
        let (a1, a2, a3, a4, a5, a6) = answer_execute_frame bound t ran.1 in
        (
          a1 ∙ ap (λ z. z ++ told bound ran.1) (t1 ∙ m4),
          a2 ∙ t2,
          a3 ∙ t3,
          a4 ∙ t4 ∙ m1,
          a5 ∙ t5 ∙ m2,
          a6 ∙ t6 ∙ m3,
        )

    -- the memo answers for this portal
    execute_hit :
        is_some s.last.res ≡ true
        → s.last_sql ≡ text_of
        → ((execute query_context s name).db ≡ s.db)
          × ((execute query_context s name).eng ≡ s.eng)
          × ((execute query_context s name).out ≡ s.out ++ told bound s.last)
    execute_hit h e =
        let hit = run_hit s text_of h e in
        let (f1, f2, f3, f4, f5, f6) = execute_frame in
        (
          f2 ∙ ap (λ (z : Session Db × Outcome). z.0.db) hit,
          f3 ∙ ap (λ (z : Session Db × Outcome). z.0.eng) hit,
          f1 ∙ ap (λ (z : Session Db × Outcome). s.out ++ told bound z.1) hit,
        )

    -- the text of the portal that the memo answers for after an `Execute`
    text_of_again :
        (t : Session Db)
        → t.portals ≡ s.portals
        → substitute_params
            (portal_of (lookup name t.portals)).sql
            (portal_of (lookup name t.portals)).params
          ≡ text_of
    text_of_again t e =
        ap
          (λ z.
            substitute_params (portal_of (lookup name z)).sql (portal_of (lookup name z)).params)
          e

  -- A portal that was executed with a result, and is executed again before a Sync, does not reach
  -- the engine again, whatever its statement does: the database and the engine stay as they are,
  -- and the client is told once more what it was told the first time.
  pub execute_repeated :
      (s : Session Db) (name : Str)
      → is_some (execute query_context s name).last.res ≡ true
      → ((execute query_context (execute query_context s name) name).db
          ≡ (execute query_context s name).db)
        × ((execute query_context (execute query_context s name) name).eng
            ≡ (execute query_context s name).eng)
        × ((execute query_context (execute query_context s name) name).out
            ≡ (s.out ++ told (bound s name) (ran s name).1) ++ told (bound s name) (ran s name).1)
  execute_repeated s name h =
      let t = execute query_context s name in
      let (f1, f2, f3, f4, f5, f6) = execute_frame s name in
      let (h1, h2, h3) = execute_hit t name h (f5 ∙ sym (text_of_again s name t f6)) in
      (
        h1,
        h2,
        h3 ∙ ap₂ (◌++◌ {A = Event}) f1 (ap₂ told (ap (λ z. portal_of (lookup name z)) f6) f4),
      )

  answer_describe_frame :
      (formats : List ℕ) (t : Session Db) (o : Outcome)
      → ((answer_describe query_context formats (t, o)).db ≡ t.db)
        × ((answer_describe query_context formats (t, o)).eng ≡ t.eng)
        × ((answer_describe query_context formats (t, o)).last ≡ t.last)
        × ((answer_describe query_context formats (t, o)).last_sql ≡ t.last_sql)
        × ((answer_describe query_context formats (t, o)).portals ≡ t.portals)
  unfolding answer_describe
  answer_describe_frame formats t o = elim (Option-cases o.err) [
    | inr (m, y) ↦ rw y (refl, refl, refl, refl, refl)
    | inl n ↦ rw n (refl, refl, refl, refl, refl)
  ]

  describe_sql_frame :
      (t : Session Db) (raw : Str) (formats : List ℕ)
      → returns_rows raw ≡ true
      → ((describe_sql query_context t raw formats).db
          ≡ (run query_context t (substitute_params raw [])).0.db)
        × ((describe_sql query_context t raw formats).eng
            ≡ (run query_context t (substitute_params raw [])).0.eng)
        × ((describe_sql query_context t raw formats).last
            ≡ (run query_context t (substitute_params raw [])).1)
        × ((describe_sql query_context t raw formats).last_sql ≡ substitute_params raw [])
        × ((describe_sql query_context t raw formats).portals ≡ t.portals)
  unfolding describe_sql
  describe_sql_frame t raw formats h =
      let (m1, m2, m3, m4) = run_memo t (substitute_params raw []) in
      let r = run query_context t (substitute_params raw []) in
      let (a1, a2, a3, a4, a5) = answer_describe_frame formats r.0 r.1 in
      rw h (a1, a2, a3 ∙ m1, a4 ∙ m2, a5 ∙ m3)

  -- A Describe of a portal whose statement returns rows and has no placeholder, and the Execute of
  -- that portal behind it, run the statement once: the Execute leaves the database and the engine
  -- as the Describe left them, and sends the rows of the outcome that the Describe saw.
  pub execute_described :
      (s : Session Db) (kind : ℕ) (name : Str)
      → (kind == b'S') ≡ false
      → returns_rows (bound s name).sql ≡ true
      → max_param_index (bound s name).sql ≡ 0
      → is_some (describe query_context s kind name).last.res ≡ true
      → ((execute query_context (describe query_context s kind name) name).db
          ≡ (describe query_context s kind name).db)
        × ((execute query_context (describe query_context s kind name) name).eng
            ≡ (describe query_context s kind name).eng)
        × ((execute query_context (describe query_context s kind name) name).out
            ≡ (describe query_context s kind name).out
              ++ told (bound s name) (run query_context s (bound s name).sql).1)
  unfolding describe
  execute_described s kind name k r n h =
      let p = bound s name in
      let d = describe_sql query_context s p.sql p.formats in
      let (f1, f2, f3, f4, f5) = describe_sql_frame s p.sql p.formats r in
      let same_text : substitute_params p.sql [] ≡ p.sql = substitute_params-eq_self p.sql [] n in
      let text : d.last_sql ≡ text_of d name =
        f4
        ∙ same_text
        ∙ sym (substitute_params-eq_self p.sql p.params n)
        ∙ sym (text_of_again s name d f5) in
      let (h1, h2, h3) = execute_hit d name (rw k at h) text in
      rw k (
        h1,
        h2,
        h3
            ∙ ap (λ z. d.out ++ z)
                (ap₂ told (ap (λ z. portal_of (lookup name z)) f5)
                  (f3 ∙ ap (λ z. (run query_context s z).1) same_text)),
      )

  -- what was sent before does not matter to `run`
  run-emit :
      (events : List Event) (s : Session Db) (sql : Str)
      → ((run query_context (emit events s) sql).0.db ≡ (run query_context s sql).0.db)
        × ((run query_context (emit events s) sql).0.eng ≡ (run query_context s sql).0.eng)
  unfolding run
  run-emit events s sql = ground arith

  -- A Describe of a portal whose statement returns no rows (an INSERT, an UPDATE, DDL) does not
  -- run it: an Execute behind it changes the database and the engine just as it would have done
  -- without the Describe.
  pub execute_after_no_data :
      (s : Session Db) (kind : ℕ) (name : Str)
      → (kind == b'S') ≡ false
      → returns_rows (bound s name).sql ≡ false
      → ((describe query_context s kind name).db ≡ s.db)
        × ((describe query_context s kind name).out ≡ s.out ++ send no_data ∷ [])
        × ((execute query_context (describe query_context s kind name) name).db
            ≡ (execute query_context s name).db)
        × ((execute query_context (describe query_context s kind name) name).eng
            ≡ (execute query_context s name).eng)
  unfolding describe describe_sql
  execute_after_no_data s kind name k r =
      let t = emit (send no_data ∷ []) s in
      let (d, e) = run-emit (send no_data ∷ []) s (text_of s name) in
      let (_, f2, f3, _, _, _) = execute_frame s name in
      let (_, g2, g3, _, _, _) = execute_frame t name in
      rw (k, r) (refl, refl, g2 ∙ d ∙ sym f2, g3 ∙ e ∙ sym f3)
