-- ===== src/Pg/Session/Reply.antt =====
-- The shape of the answer to a simple query.
use spoofdb.Base.{
  is_some, ℕ, ◌+◌, ◌≡◌, refl, sym, Bool, true, false, List, [], ◌∷◌, ◌++◌, arith, if◌then◌else◌,
  Bool-cases, Option-cases, inl, inr, append_assoc, length,
}
use spoofdb.Text.{Str, Unicode}
use spoofdb.Value.{the_result, Value, Column, QueryResult, Outcome}
use spoofdb.Value.Print.{Formats}
use spoofdb.Fidelity.{Report, is_empty, warnings}
use spoofdb.Engine.Run.{Answer}
use spoofdb.Pg.Statement.{command_tag}
use spoofdb.Pg.Report.{report}
use spoofdb.Pg.Wire.{
  command_complete, error_response, empty_query_response, ready_for_query, Event, send, flush,
  row_desc, row_message, row_events, fidelity_events, notices,
}
use spoofdb.Pg.Session.{is_blank_query, shown, run_conn, answer_simple, simple_query}
use spoofdb.Pg.State.{Session, tx_status, ready, track_tx, emit}

-- the messages that end a query
abbrev pub is_end : Event → Bool
is_end (send empty_query_response) = true
is_end (send (command_complete tag)) = true
is_end (send (error_response m)) = true
is_end _ = false

-- what stands alone behind a query: ReadyForQuery and the flush
abbrev pub is_ready : Event → Bool
is_ready (send (ready_for_query b)) = true
is_ready flush = true
is_ready _ = false

abbrev pub count_if : (Event → Bool) → List Event → ℕ
count_if p [] = 0
count_if p (e ∷ es) = (if p e then 1 else 0) + count_if p es

count_if-append :
    (p : Event → Bool) (a b : List Event) → count_if p (a ++ b) ≡ count_if p a + count_if p b
count_if-append p [] b = omega arith
count_if-append p (e ∷ a) b = omega (arith, count_if-append p a b)

-- events among which no query ends and no ReadyForQuery stands
abbrev IsBody : List Event → Type 0
IsBody es = (count_if is_end es ≡ 0) × (count_if is_ready es ≡ 0)

IsBody-append : (a b : List Event) → IsBody a → IsBody b → IsBody (a ++ b)
IsBody-append a b h k = omega (arith, count_if-append is_end a b, count_if-append is_ready a b)

IsBody-notices : (ws : List Str) → IsBody (notices ws)
IsBody-notices [] = (refl, refl)
IsBody-notices (w ∷ ws) = omega (arith, IsBody-notices ws)

module _ ⦃u : Unicode⦄ ⦃fm : Formats⦄ where
  IsBody-row_events :
      (res : QueryResult) (formats : List ℕ) (rows : List (List Value))
      → IsBody (row_events res formats rows)
  unfolding row_message
  IsBody-row_events res formats [] = (refl, refl)
  IsBody-row_events res formats (row ∷ rows) = omega (arith, IsBody-row_events res formats rows)

  IsBody-fidelity_events : (r : Report) → IsBody (fidelity_events r)
  unfolding fidelity_events
  IsBody-fidelity_events r = elim (Bool-cases (is_empty r)) [
    | inl y ↦ rw y (refl, refl)
    | inr n ↦ rw n (omega (arith, IsBody-notices (warnings r)))
  ]

  IsBody-shown : (res : QueryResult) (cs : List Column) → IsBody (shown res cs)
  unfolding row_desc
  IsBody-shown res [] = (refl, refl)
  IsBody-shown res (c ∷ cs) = omega (arith, IsBody-row_events res [] res.rows)

-- What the source sends back for one simple query: a body, one message that ends the query, and one
-- ReadyForQuery with the status that the session then has, flushed.
pub record IsReply {Db : Type 0} (before after : Session Db) : Type 0 where
  pub body : List Event
  pub last : Event
  pub is_body : (count_if is_end body ≡ 0) × (count_if is_ready body ≡ 0)
  pub ends : is_end last ≡ true
  pub sent :
      after.out
      ≡ before.out ++ (body ++ last ∷ send (ready_for_query (tx_status after)) ∷ flush ∷ [])

module _ {Db : Type 0} where
  tx_status-emit : (events : List Event) (s : Session Db) → tx_status (emit events s) ≡ tx_status s
  unfolding tx_status
  tx_status-emit events s = refl

  ready-IsReply :
      (s t : Session Db) (body : List Event) (last : Event) {events : List Event}
      → events ≡ body ++ last ∷ []
      → IsBody body
      → is_end last ≡ true
      → t.out ≡ s.out
      → IsReply s (ready (emit events t))
  unfolding ready tx_status
  ready-IsReply s t body last v b e o = record {
    body = body;
    last = last;
    is_body = b;
    ends = e;
    sent = simp (v, append_assoc, o);
  }

module _ {Db : Type 0} (query_context : Db → Str → Db × Answer) ⦃u : Unicode⦄ ⦃fm : Formats⦄ where
  answer_simple-IsReply :
      (sql : Str) (s t : Session Db) (o : Outcome)
      → t.out ≡ s.out
      → IsReply s (answer_simple query_context sql t o)
  unfolding answer_simple
  answer_simple-IsReply sql s t o e = elim (Option-cases o.err) [
    | inr (m, y) ↦ rw y (ready-IsReply s t [] (send (error_response m)) refl (refl, refl) refl e)
    | inl n ↦
        let res = the_result o.res in
        rw n (
          ready-IsReply s t (shown res res.cols ++ fidelity_events (report res))
            (send (command_complete (command_tag sql (length res.rows))))
            (sym (append_assoc (shown res res.cols) (fidelity_events (report res)) _))
            (IsBody-append (shown res res.cols) (fidelity_events (report res))
              (IsBody-shown res res.cols) (IsBody-fidelity_events (report res)))
            refl e)
  ]

  -- Every simple query, empty, failing or not, is answered by exactly one EmptyQueryResponse,
  -- ErrorResponse or CommandComplete, and behind it exactly one ReadyForQuery, which carries the
  -- status that the session has then, and a flush.
  pub simple_query-IsReply :
      (s : Session Db) (sql : Str) → IsReply s (simple_query query_context s sql)
  unfolding simple_query
  simple_query-IsReply s sql = elim (Bool-cases (is_blank_query sql)) [
    | inl y ↦ rw y (ready-IsReply s s [] (send empty_query_response) refl (refl, refl) refl refl)
    | inr n ↦
        let r = run_conn query_context s sql in
        rw n (
          answer_simple-IsReply sql s (track_tx sql (is_some r.1.err) r.0) r.1
            (unfold track_tx run_conn in ground arith))
  ]
