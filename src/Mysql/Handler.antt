-- ===== src/Mysql/Handler.antt =====
-- internal/mysql/handler.go: `handler`, `exec` and what it calls. The statements of one connection
-- change its handler, the engine's log and the database, which are one state here.
pub mod Warnings
use spoofdb.Base.{
  ℕ, ◌%◌, ◌^◌, Bool, true, false, List, [], ◌∷◌, ◌++◌, map, Option, none, some, ◌⊎◌, inl, inr,
  if◌then◌else◌, length,
}
use spoofdb.Base.Int.{ℤ, pos}
use spoofdb.Text.{Str, codes, Unicode, same, trim_space}
use spoofdb.Value.{
  the_result, Value, null, bool, int, int8, int16, int32, int64, uint, uint8, uint16, uint32,
  uint64, float32, float64, text, bytes, time, big_int, other, Column, QueryResult, Outcome,
  empty_result,
}
use spoofdb.Value.Print.{Formats, sprint}
use spoofdb.Engine.Run.{Engine, Answer, run_on}
use spoofdb.Fidelity.{Report, is_empty, warnings, summary}
use spoofdb.Mysql.Text.{
  backticks_to_quotes, substitute_args, first_word, is_show_warnings, is_session_noop,
}
use spoofdb.Mysql.Report.{report}

-- the handler of a connection, with the engine, the database and what the handler has logged
pub record Handler (Db : Type 0) : Type 0 where
  pub eng : Engine
  pub db : Db
  pub warns : List Str
  pub log : List Str

-- A `*gomysql.Result`: `okResult`, or a result set (`Set` is the library's type) with its number of
-- warnings.
pub data Result (Set : Type 0) : Type 0 where
  ok_result : ℕ → Result Set
  result_set : Set → ℕ → Result Set

module _ ⦃fm : Formats⦄ where
  -- `coerce`
  unfoldable pub coerce : Value → Value
  coerce (bool b) = if b then int64 (pos 1) else int64 (pos 0)
  coerce (big_int z) = text (sprint (big_int z))
  coerce (other s) = text (sprint (other s))
  coerce v = v

-- one row of `showWarnings`
unfoldable pub warning_row : Str → List Value
warning_row w = text (codes "Warning") ∷ int64 (pos 1105) ∷ text (codes "spoofdb: " ++ w) ∷ []

abbrev pub warning_columns : List Str
warning_columns = codes "Level" ∷ codes "Code" ∷ codes "Message" ∷ []

-- `build` makes a result set from column names and rows, in the binary encoding or as text:
-- `BuildSimpleBinaryResultset` and `BuildSimpleTextResultset`. It can fail.
module _ {Set : Type 0} (build : Bool → List Str → List (List Value) → Set ⊎ Str) where
  -- `showWarnings`
  unfoldable pub show_warnings : List Str → Result Set ⊎ Str
  unfolding warning_row
  show_warnings warns = elim (build false warning_columns (map warning_row warns)) [
    | inl set ↦ inl (result_set set 0)
    | inr m ↦ inr m
  ]

module _ {Db Set : Type 0} ⦃u : Unicode⦄ ⦃fm : Formats⦄ where
  -- `exec` behind the result set
  unfoldable pub note_report : Handler Db → Set → Report → Handler Db × (Result Set ⊎ Str)
  note_report h set rep = if is_empty rep then (h, inl (result_set set 0)) else (
    record h { log = h.log ++ (codes "mysql: " ++ summary rep) ∷ []; warns = warnings rep },
    inl (result_set set (length (warnings rep) % 2 ^ 16)),
  )

  -- `exec` behind the `Build` functions
  unfoldable pub finish : Handler Db → QueryResult → Set ⊎ Str → Handler Db × (Result Set ⊎ Str)
  unfolding note_report
  finish h res (inl set) = note_report h set (report res)
  finish h res (inr m) = (h, inr m)

module _ {Set : Type 0} (build : Bool → List Str → List (List Value) → Set ⊎ Str) where
  module _ ⦃fm : Formats⦄ where
    -- the names and values that `exec` builds a result set from
    unfoldable pub built : Bool → QueryResult → Set ⊎ Str
    unfolding coerce
    built binary res = build binary (map (λ c. c.name) res.cols) (map (map coerce) res.rows)

module _ {Db Set : Type 0} (build : Bool → List Str → List (List Value) → Set ⊎ Str) where
  module _ ⦃u : Unicode⦄ ⦃fm : Formats⦄ where
    -- `exec` from `h.warnings = nil` on
    unfoldable pub encode_result :
        Handler Db → QueryResult → List Column → Bool → Handler Db × (Result Set ⊎ Str)
    unfolding finish
    encode_result h res [] binary = (record h { warns = [] }, inl (ok_result (length res.rows)))
    encode_result h res (c ∷ cs) binary =
        finish (record h { warns = [] }) res (built build binary res)

    -- `exec` behind `h.eng.Run`
    unfoldable pub answer : Handler Db → Str → Bool → Outcome → Handler Db × (Result Set ⊎ Str)
    unfolding encode_result
    answer h q binary outcome = elim outcome.err [
      | some m ↦ if is_session_noop (first_word q) then (h, inl (ok_result 0)) else (h, inr m)
      | none ↦ let res = the_result outcome.res in encode_result h res res.cols binary
    ]

    module _ (query_context : Db → Str → Db × Answer) where
      -- `h.eng.Run(query)` and what follows it
      unfoldable pub run_query : Handler Db → Str → Bool → Handler Db × (Result Set ⊎ Str)
      run_query h query binary =
          let (e, db, outcome) = run_on query_context h.eng h.db query in
          answer (record h { eng = e; db = db }) (trim_space query) binary outcome

      -- `exec` behind `backticksToQuotes`
      unfoldable pub exec_quoted : Handler Db → Str → Bool → Handler Db × (Result Set ⊎ Str)
      exec_quoted h query binary =
          if same (trim_space query) []
          then (h, inl (ok_result 0))
          else if is_show_warnings (trim_space query)
          then (h, show_warnings build h.warns)
          else run_query h query binary

      -- `exec`
      unfoldable pub exec : Handler Db → Str → Bool → Handler Db × (Result Set ⊎ Str)
      exec h query binary = exec_quoted h (backticks_to_quotes query) binary

      -- `HandleQuery`
      unfoldable pub handle_query : Handler Db → Str → Handler Db × (Result Set ⊎ Str)
      handle_query h query = exec h query false

      -- `HandleStmtExecute`
      unfoldable pub handle_stmt_execute :
          Handler Db → Str → List Value → Handler Db × (Result Set ⊎ Str)
      handle_stmt_execute h query args = exec h (substitute_args query args) true
