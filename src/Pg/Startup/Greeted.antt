-- ===== src/Pg/Startup/Greeted.antt =====
-- A Postgres connection is greeted once, and its session is that of the messages that it sends.
use mathlib.Core.Path.{subst}
use spoofdb.Base.{
  ℕ, zero, suc, ◌<◌, ◌≡◌, refl, sym, ap, ◌∙◌, Bool, true, false, List, [], ◌∷◌, ◌++◌, Option, none,
  some, inl, inr, arith, Option-cases, if◌then◌else◌,
}
use spoofdb.Text.{Str, Unicode}
use spoofdb.Value.Print.{Formats}
use spoofdb.Engine.Run.{Engine, Answer}
use spoofdb.Pg.Wire.{Frontend}
use spoofdb.Pg.State.{Session, tx_status}
use spoofdb.Pg.Session.{handle, serve}
use spoofdb.Pg.Startup.{
  StartupMsg, ssl_request, gss_enc_request, startup_message, other_startup, Greeting, first_ready,
  Link, IsLawful, greeting, parameters, Startup, greeted, not_greeted, startup_out_of_fuel, Round,
  declined, over, flushed, denied, on_startup, startup, new_session, Handled, not_acquired, refused,
  served, out_of_fuel, serve_link, finished, after_startup, handle_conn,
}

-- the message that a greeting ends with
abbrev pub last_of : List Greeting → Option Greeting
last_of [] = none
last_of (g ∷ []) = some g
last_of (g ∷ h ∷ gs) = last_of (h ∷ gs)

-- the requests for encryption
abbrev pub is_request : StartupMsg → Bool
is_request ssl_request = true
is_request gss_enc_request = true
is_request startup_message = false
is_request other_startup = false

-- What the start-up of a connection comes to, behind the bytes `raw` that have been written, by the
-- client's messages: a request for encryption is answered by the byte N, and the next message is
-- waited for; a StartupMessage is answered by the greeting; and the start-up fails where no message
-- can be read, a write fails, or the message is another.
pub data IsStartup {Net : Type 0} (k : Link Net) : Str → Net → Startup Net → Type 0 where
  unread : (raw : Str) (n : Net) → k.receive_startup n ≡ none → IsStartup k raw n (not_greeted raw)
  declines :
      (raw : Str) (n n1 n2 : Net) (m : StartupMsg) (x : Startup Net)
      → k.receive_startup n ≡ some (m, n1)
      → is_request m ≡ true
      → k.write (b'N' ∷ []) n1 ≡ some n2
      → IsStartup k (raw ++ b'N' ∷ []) n2 x
      → IsStartup k raw n x
  cannot_decline :
      (raw : Str) (n n1 : Net) (m : StartupMsg)
      → k.receive_startup n ≡ some (m, n1)
      → is_request m ≡ true
      → k.write (b'N' ∷ []) n1 ≡ none
      → IsStartup k raw n (not_greeted raw)
  greets :
      (raw : Str) (n n1 n2 : Net)
      → k.receive_startup n ≡ some (startup_message, n1)
      → k.flush_out greeting n1 ≡ some n2
      → IsStartup k raw n (greeted n2 raw greeting)
  cannot_greet :
      (raw : Str) (n n1 : Net)
      → k.receive_startup n ≡ some (startup_message, n1)
      → k.flush_out greeting n1 ≡ none
      → IsStartup k raw n (not_greeted raw)
  unexpected :
      (raw : Str) (n n1 : Net)
      → k.receive_startup n ≡ some (other_startup, n1)
      → IsStartup k raw n (not_greeted raw)

module _ {Net : Type 0} (k : Link Net) (l : IsLawful k) where
  -- the rounds behind one round
  abbrev go_on : ℕ → Round Net → Startup Net
  go_on fuel (declined raw n) = startup k fuel raw n
  go_on fuel (over x) = x

  -- `fuel` is enough behind a message
  abbrev IsEnough : ℕ → ℕ → Type 0
  IsEnough fuel b = (raw : Str) (n : Net) → k.size n < b → IsStartup k raw n (startup k fuel raw n)

  denied-IsStartup :
      (fuel : ℕ) (raw : Str) (n n1 : Net) (m : StartupMsg) (o : Option Net)
      → k.receive_startup n ≡ some (m, n1)
      → is_request m ≡ true
      → k.write (b'N' ∷ []) n1 ≡ o
      → IsEnough fuel (k.size n)
      → IsStartup k raw n (go_on fuel (denied k raw o))
  denied-IsStartup fuel raw n n1 m none e i q h = cannot_decline raw n n1 m e i q
  denied-IsStartup fuel raw n n1 m (some n2) e i q h =
      declines raw n n1 n2 m (startup k fuel (raw ++ b'N' ∷ []) n2) e i q (
        h (raw ++ b'N' ∷ []) n2
          (omega (arith, l.write_keeps (b'N' ∷ []) n1 n2 q, l.startup_shrinks n n1 m e)))

  flushed-IsStartup :
      (fuel : ℕ) (raw : Str) (n n1 : Net) (o : Option Net)
      → k.receive_startup n ≡ some (startup_message, n1)
      → k.flush_out greeting n1 ≡ o
      → IsStartup k raw n (go_on fuel (flushed k raw o))
  flushed-IsStartup fuel raw n n1 none e q = cannot_greet raw n n1 e q
  flushed-IsStartup fuel raw n n1 (some n2) e q = greets raw n n1 n2 e q

  on_startup-IsStartup :
      (fuel : ℕ) (raw : Str) (n : Net) (o : Option (StartupMsg × Net))
      → k.receive_startup n ≡ o
      → IsEnough fuel (k.size n)
      → IsStartup k raw n (go_on fuel (on_startup k raw o))
  unfolding on_startup
  on_startup-IsStartup fuel raw n none e h = unread raw n e
  on_startup-IsStartup fuel raw n (some (ssl_request, n1)) e h =
      denied-IsStartup fuel raw n n1 ssl_request (k.write (b'N' ∷ []) n1) e refl refl h
  on_startup-IsStartup fuel raw n (some (gss_enc_request, n1)) e h =
      denied-IsStartup fuel raw n n1 gss_enc_request (k.write (b'N' ∷ []) n1) e refl refl h
  on_startup-IsStartup fuel raw n (some (startup_message, n1)) e h =
      flushed-IsStartup fuel raw n n1 (k.flush_out greeting n1) e refl
  on_startup-IsStartup fuel raw n (some (other_startup, n1)) e h = unexpected raw n n1 e

  startup_round :
      (fuel : ℕ) (raw : Str) (n : Net)
      → startup k (suc fuel) raw n ≡ go_on fuel (on_startup k raw (k.receive_startup n))
  unfolding startup
  startup_round fuel raw n = same_round (on_startup k raw (k.receive_startup n))
    where
      same_round :
          (x : Round Net)
          → (elim x [ declined raw' n' ↦ startup k fuel raw' n' | over y ↦ y ]) ≡ go_on fuel x
      same_round (declined raw' n') = refl
      same_round (over y) = refl

  startup-IsStartup :
      (fuel : ℕ) (raw : Str) (n : Net) → k.size n < fuel → IsStartup k raw n (startup k fuel raw n)
  startup-IsStartup zero raw n h = absurd (omega arith)
  startup-IsStartup (suc fuel) raw n h =
      subst (IsStartup k raw n) (sym (startup_round fuel raw n)) (
        on_startup-IsStartup fuel raw n (k.receive_startup n) refl
          (λ raw' n' h'. startup-IsStartup fuel raw' n' (omega arith)))

  greeted_greeting :
      (raw raw' : Str) (n n' : Net) (gs : List Greeting) (x : Startup Net)
      → x ≡ greeted n' raw' gs
      → IsStartup k raw n x
      → gs ≡ greeting
  greeted_greeting raw raw' n n' gs _ e (unread _ _ _) = cc
  greeted_greeting raw raw' n n' gs _ e (declines _ _ _ n2 _ x _ _ _ i) =
      greeted_greeting _ raw' n2 n' gs x e i
  greeted_greeting raw raw' n n' gs _ e (cannot_decline _ _ _ _ _ _ _) = cc
  greeted_greeting raw raw' n n' gs _ e (greets _ _ _ _ _ _) = cc
  greeted_greeting raw raw' n n' gs _ e (cannot_greet _ _ _ _ _) = cc
  greeted_greeting raw raw' n n' gs _ e (unexpected _ _ _ _) = cc

  out_of_fuel_not :
      (raw : Str) (n : Net) (x : Startup Net) → x ≡ startup_out_of_fuel → IsStartup k raw n x → ⊥
  out_of_fuel_not raw n _ e (unread _ _ _) = cc
  out_of_fuel_not raw n _ e (declines _ _ _ n2 _ x _ _ _ i) = out_of_fuel_not _ n2 x e i
  out_of_fuel_not raw n _ e (cannot_decline _ _ _ _ _ _ _) = cc
  out_of_fuel_not raw n _ e (greets _ _ _ _ _ _) = cc
  out_of_fuel_not raw n _ e (cannot_greet _ _ _ _ _) = cc
  out_of_fuel_not raw n _ e (unexpected _ _ _ _) = cc

-- the messages that a client sends, up to the first that cannot be read
abbrev pub messages : {Net : Type 0} → Link Net → ℕ → Net → List Frontend
messages k zero n = []
messages k (suc fuel) n = elim (k.receive n) [
  | none ↦ []
  | some (msg, n') ↦ msg ∷ messages k fuel n'
]

module _ {Net Db : Type 0} (k : Link Net) (query_context : Db → Str → Db × Answer) ⦃u : Unicode⦄
    ⦃fm : Formats⦄ where
  -- What a connection comes to, where `eng.Conn` gives a database connection: its start-up fails, or
  -- it is greeted, with the status of its transaction, and its session is the one of its messages.
  abbrev pub IsHandled : Engine → Db → Net → Handled Db → Type 0
  IsHandled eng db n (not_acquired m) = ⊥
  IsHandled eng db n out_of_fuel = ⊥
  IsHandled eng db n (refused raw) = IsStartup k [] n (not_greeted raw)
  IsHandled eng db n (served raw gs s) =
      (last_of gs ≡ some (first_ready (tx_status (new_session eng db))))
      × ((n' : Net) × IsStartup k [] n (greeted n' raw gs)
          × (s ≡ serve query_context (new_session eng db) (messages k (suc (k.size n')) n')))

module _ {Net Db : Type 0} (k : Link Net) (l : IsLawful k) (query_context : Db → Str → Db × Answer)
    ⦃u : Unicode⦄ ⦃fm : Formats⦄ where
  serve_link-serve :
      (fuel : ℕ) (n : Net) (s : Session Db)
      → k.size n < fuel
      → serve_link k query_context fuel n s ≡ some (serve query_context s (messages k fuel n))
  unfolding serve_link serve
  serve_link-serve zero n s h = absurd (omega arith)
  serve_link-serve (suc fuel) n s h = elim (Option-cases (k.receive n)) [
    | inl q ↦ rw (q, serve_link, messages) refl
    | inr ((msg, n'), q) ↦
        let rest =
          serve_link-serve fuel n' (handle query_context s msg).0
            (omega (arith, l.receive_shrinks n n' msg q)) in
        rw (q, serve_link, messages) (rw (rest) (either (handle query_context s msg).1 _ _))
  ]
    where
      either :
          (b : Bool) (x y : Session Db) → (if b then some x else some y) ≡ some (if b then x else y)
      either true x y = refl
      either false x y = refl

  greeting_status :
      (eng : Engine) (db : Db)
      → last_of greeting ≡ some (first_ready (tx_status (new_session eng db)))
  unfolding greeting parameters tx_status new_session
  greeting_status eng db = refl

  after_startup-IsHandled :
      (eng : Engine) (db : Db) (n : Net) (x : Startup Net)
      → IsStartup k [] n x
      → IsHandled k query_context eng db n (after_startup k query_context eng db x)
  unfolding after_startup
  after_startup-IsHandled eng db n startup_out_of_fuel h =
      absurd (out_of_fuel_not k l [] n _ refl h)
  after_startup-IsHandled eng db n (not_greeted raw) h = h
  after_startup-IsHandled eng db n (greeted n' raw gs) h =
      subst (λ o. IsHandled k query_context eng db n (finished k query_context raw gs o))
        (sym (serve_link-serve (suc (k.size n')) n' (new_session eng db) (omega arith)))
        (
          ap last_of (greeted_greeting k l [] raw n n' gs _ refl h) ∙ greeting_status eng db,
          (n', h, refl),
        )

  -- Whatever a client sends, if it is finite, its connection comes to an end, in the way that its
  -- messages and the writes to it determine. Each request for encryption is answered by one byte N and
  -- followed by the next start-up message. A StartupMessage is answered by the greeting, whose last
  -- message shows the status of the transaction in the session that begins, and the session is then
  -- the one of the client's further messages, up to the first that cannot be read or that ends it. The
  -- start-up fails only where a message cannot be read, a write fails, or the message is another.
  pub handle_conn-IsHandled :
      (eng : Engine) (db : Db) (n : Net)
      → IsHandled k query_context eng db n (handle_conn k query_context eng (inl db) n)
  unfolding handle_conn
  handle_conn-IsHandled eng db n =
      after_startup-IsHandled eng db n (startup k (suc (k.size n)) [] n)
        (startup-IsStartup k l (suc (k.size n)) [] n (omega arith))
