-- ===== src/Tests/Greetings.antt =====
-- A Postgres client that asks for encryption, starts, and sends a Sync.
use spoofdb.Base.{suc, ◌≤◌, ◌≡◌, List, [], ◌∷◌, Option, none, some, inl, arith, length}
use spoofdb.Text.{codes}
use spoofdb.Pg.Wire.{Frontend, query, sync, terminate}
use spoofdb.Pg.Startup.{StartupMsg, ssl_request, startup_message, Link, IsLawful, handle_conn}
use spoofdb.Pg.Startup.Greeted.{IsHandled, handle_conn-IsHandled}
use spoofdb.Tests.Fixtures.{no_case, no_formats, database, engine}

-- what a client sends
data Sent : Type 0 where
  hello : StartupMsg → Sent
  message : Frontend → Sent

abbrev take_hello : List Sent → Option (StartupMsg × List Sent)
take_hello (hello m ∷ l) = some (m, l)
take_hello l = none

abbrev take_message : List Sent → Option (Frontend × List Sent)
take_message (message m ∷ l) = some (m, l)
take_message l = none

abbrev link : Link (List Sent)
link = record {
  receive_startup = take_hello;
  receive = take_message;
  write = λ s l. some l;
  flush_out = λ gs l. some l;
  size = length;
}

hello_shrinks :
    (l l' : List Sent) (m : StartupMsg) → take_hello l ≡ some (m, l') → suc (length l') ≤ length l
hello_shrinks (hello x ∷ l) l' m e = ground arith
hello_shrinks _ l' m e = absurd (cc)

message_shrinks :
    (l l' : List Sent) (m : Frontend) → take_message l ≡ some (m, l') → suc (length l') ≤ length l
message_shrinks (message x ∷ l) l' m e = ground arith
message_shrinks _ l' m e = absurd (cc)

link-IsLawful : IsLawful link
link-IsLawful = record {
  startup_shrinks = hello_shrinks;
  receive_shrinks = message_shrinks;
  write_keeps = λ s l l' e. ground arith;
  flush_keeps = λ gs l l' e. ground arith;
}

abbrev sent : List Sent
sent =
    hello ssl_request
    ∷ hello startup_message
    ∷ message (query (codes "SELECT 7"))
    ∷ message sync
    ∷ message terminate
    ∷ []

handle_conn-IsHandled_example :
    IsHandled link database engine [] sent (handle_conn link database engine (inl []) sent)
handle_conn-IsHandled_example = handle_conn-IsHandled link link-IsLawful database engine [] sent
