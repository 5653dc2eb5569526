-- ===== src/Mysql/Handler/Warnings.antt =====
-- What `SHOW WARNINGS` answers behind any statement.
use spoofdb.Base.{
  ◌≡◌, refl, sym, ◌∙◌, ap, Bool, true, false, List, [], ◌∷◌, Option, none, some, ◌⊎◌, inl, inr,
  arith, if◌then◌else◌,
}
use spoofdb.Text.{Str, Unicode, same, trim_space, fields, join, to_upper, has_prefix}
use spoofdb.Value.{the_result, Value, Column, QueryResult, Outcome}
use spoofdb.Value.Print.{Formats}
use spoofdb.Engine.Run.{Answer, run_on}
use spoofdb.Fidelity.{Report, is_empty, warnings}
use spoofdb.Mysql.Text.{backticks_to_quotes, is_show_warnings}
use spoofdb.Mysql.Report.{report, columns_notes}
use spoofdb.Mysql.Handler.{
  Handler, built, finish, show_warnings, note_report, encode_result, answer, run_query, exec_quoted,
  exec,
}

show_warnings_blank : ⦃u : Unicode⦄ (t : Str) → is_show_warnings t ≡ true → same t [] ≡ false
unfolding is_show_warnings same fields join to_upper has_prefix
show_warnings_blank [] h = sym h
show_warnings_blank (c ∷ t) h = refl

-- the statements that do not reach the database
abbrev pub is_local : ⦃u : Unicode⦄ → Str → Bool
is_local t = if same t [] then true else is_show_warnings t

module _ {Set : Type 0} ⦃u : Unicode⦄ ⦃fm : Formats⦄ where
  abbrev pub approximations : QueryResult → Set ⊎ Str → List Str
  approximations res (inl set) = warnings (report res)
  approximations res (inr m) = []

  no_columns : (res : QueryResult) (e : Set ⊎ Str) → res.cols ≡ [] → approximations res e ≡ []
  unfolding report warnings is_empty
  no_columns res (inl set) y = ap (λ cs. warnings (columns_notes cs (some []))) y
  no_columns res (inr m) y = refl

  warns-note_report :
      {Db : Type 0} (h : Handler Db) (set : Set) (rep : Report)
      → h.warns ≡ []
      → (note_report h set rep).0.warns ≡ warnings rep
  unfolding note_report warnings
  warns-note_report h set rep y = ground arith

  warns-finish :
      {Db : Type 0} (h : Handler Db) (res : QueryResult) (e : Set ⊎ Str)
      → h.warns ≡ []
      → (finish h res e).0.warns ≡ approximations res e
  unfolding finish
  warns-finish h res (inl set) y = warns-note_report h set (report res) y
  warns-finish h res (inr m) y = y

module _ {Set : Type 0} (build : Bool → List Str → List (List Value) → Set ⊎ Str) ⦃u : Unicode⦄
    ⦃fm : Formats⦄ where
  -- What a statement leaves to be shown: nothing new where it does not reach the database or fails
  -- there, nothing where no result set can be made of the result, and else the notes of its report.
  abbrev pub left_by : List Str → Bool → Outcome → List Str
  left_by warns binary outcome = elim outcome.err [
    | some m ↦ warns
    | none ↦ approximations (the_result outcome.res) (built build binary (the_result outcome.res))
  ]

  abbrev pub warnings_after : List Str → Str → Bool → Outcome → List Str
  warnings_after warns t binary outcome = if is_local t then warns else left_by warns binary outcome

module _ {Db Set : Type 0} (build : Bool → List Str → List (List Value) → Set ⊎ Str) ⦃u : Unicode⦄
    ⦃fm : Formats⦄ where
  warns-encode_result :
      (h : Handler Db) (res : QueryResult) (cols : List Column) (binary : Bool)
      → res.cols ≡ cols
      → (encode_result build h res cols binary).0.warns
        ≡ approximations res (built build binary res)
  unfolding encode_result
  warns-encode_result h res [] binary y = sym (no_columns res (built build binary res) y)
  warns-encode_result h res (c ∷ cs) binary y =
      warns-finish (record h { warns = [] }) res (built build binary res) refl

  warns-answer :
      (h : Handler Db) (q : Str) (binary : Bool) (r : Option QueryResult) (e : Option Str)
      → (answer build h q binary (record { res = r; err = e })).0.warns
        ≡ left_by build h.warns binary (record { res = r; err = e })
  unfolding answer
  warns-answer h q binary r (some m) = ground arith
  warns-answer h q binary r none =
      warns-encode_result h (the_result r) (the_result r).cols binary refl

  module _ (query_context : Db → Str → Db × Answer) where
    warns-exec :
        (h : Handler Db) (q : Str) (binary : Bool)
        → (exec build query_context h q binary).0.warns
          ≡ warnings_after build h.warns
              (trim_space (backticks_to_quotes q))
              binary
              (run_on query_context h.eng h.db (backticks_to_quotes q)).2
    unfolding exec exec_quoted run_query
    warns-exec h q binary =
        let t = backticks_to_quotes q in
        let r = run_on query_context h.eng h.db t in
        ground (
          arith,
          warns-answer (record h { eng = r.0; db = r.1 }) (trim_space t) binary r.2.res r.2.err,
        )

    exec_shows :
        (h : Handler Db) (sw : Str) (binary : Bool)
        → is_show_warnings (trim_space (backticks_to_quotes sw)) ≡ true
        → exec build query_context h sw binary ≡ (h, show_warnings build h.warns)
    unfolding exec exec_quoted
    exec_shows h sw binary y = rw (show_warnings_blank _ y, y) refl

    -- `SHOW WARNINGS` behind a statement changes nothing and answers with the approximations of the
    -- result of that statement, with none where it gave no columns or no result set could be made of
    -- it; behind a statement that failed, that was empty or that was itself `SHOW WARNINGS`, with
    -- those that it would have answered with before.
    pub exec-show_warnings :
        (h : Handler Db) (q sw : Str) (binary again : Bool)
        → is_show_warnings (trim_space (backticks_to_quotes sw)) ≡ true
        → exec build query_context (exec build query_context h q binary).0 sw again ≡ (
          (exec build query_context h q binary).0,
          show_warnings build (
              warnings_after build h.warns
                (trim_space (backticks_to_quotes q))
                binary
                (run_on query_context h.eng h.db (backticks_to_quotes q)).2),
        )
    exec-show_warnings h q sw binary again y =
        exec_shows (exec build query_context h q binary).0 sw again y
        ∙ ap (λ w. ((exec build query_context h q binary).0, show_warnings build w))
            (warns-exec h q binary)
