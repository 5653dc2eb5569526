-- ===== src/Tests/Talks.antt =====
-- A ClickHouse client that greets, pings and asks.
use spoofdb.Clickhouse.Report.{report}
use spoofdb.Base.{
  ℕ, suc, ◌≤◌, ◌≡◌, refl, Bool, true, false, List, [], ◌∷◌, Option, none, some, inl, inr, arith,
  length, leb, ◌==◌, if◌then◌else◌, ◌≢◌, Bool-cases,
}
use spoofdb.Base.Int.{ℤ, pos, negsuc}
use spoofdb.Text.{Str, codes, contains, same, until, to_upper}
use spoofdb.Value.{QueryResult, big_int}
use spoofdb.Fidelity.{Report, new, add, is_empty}
use spoofdb.Engine.Run.{run_on}
use spoofdb.Engine.Run.Square.{IsTable}
use spoofdb.Clickhouse.Wire.{
  ClientCode, client_hello, client_query, client_data, client_cancel, client_ping, client_other,
  Query, Wire, IsLawful,
}
use spoofdb.Clickhouse.Session.{Session, out_of_fuel, drain_client_data, handle_query, handle_conn}
use spoofdb.Clickhouse.Session.Ends.{handle_conn_ends}
use spoofdb.Clickhouse.Session.Replies.{IsTurn, handle_query-IsTurn}
use spoofdb.Tests.Fixtures.{no_case, no_formats, database, engine}

-- what a client sends, one item for each thing that is read
data Item : Type 0 where
  number : ℕ → Item
  string : Str → Item
  greeting : ℤ → Item
  question : Query → Item
  info : Item

abbrev take_number : List Item → Option (ℕ × List Item)
take_number (number n ∷ is) = some (n, is)
take_number is = none

abbrev take_string : List Item → Option (Str × List Item)
take_string (string s ∷ is) = some (s, is)
take_string is = none

abbrev take_greeting : List Item → Option (ℤ × List Item)
take_greeting (greeting v ∷ is) = some (v, is)
take_greeting is = none

abbrev take_question : List Item → Option (Query × List Item)
take_question (question q ∷ is) = some (q, is)
take_question is = none

abbrev take_info : List Item → Option (Unit {0} × List Item)
take_info (info ∷ is) = some (tt, is)
take_info is = none

abbrev code_of : ℕ → ClientCode
code_of n =
    if n == 0
    then client_hello
    else if n == 1
    then client_query
    else if n == 2
    then client_data
    else if n == 3
    then client_cancel
    else if n == 4
    then client_ping
    else client_other

abbrev since : ℕ → ℤ → Bool
since n (pos v) = leb n v
since n (negsuc v) = false

-- a connection on which every write succeeds
abbrev wire : Wire (List Item)
wire = record {
  read_uvarint = take_number;
  read_str = take_string;
  read_hello = take_greeting;
  read_query = λ v. take_question;
  read_block_info = take_info;
  write = λ ps is. some is;
  now = λ is. pos 0;
  client_code = code_of;
  server_revision = 54460;
  has_addendum = since 54458;
  has_temp_tables = since 50264;
  has_block_info = since 51903;
  has_server_logs = since 54406;
  size = length;
}

number_shrinks :
    (is is' : List Item) (n : ℕ) → take_number is ≡ some (n, is') → suc (length is') ≤ length is
number_shrinks (number m ∷ is) is' n e = ground arith
number_shrinks _ is' n e = absurd (cc)

string_keeps :
    (is is' : List Item) (s : Str) → take_string is ≡ some (s, is') → length is' ≤ length is
string_keeps (string t ∷ is) is' s e = ground arith
string_keeps _ is' s e = absurd (cc)

greeting_keeps :
    (is is' : List Item) (v : ℤ) → take_greeting is ≡ some (v, is') → length is' ≤ length is
greeting_keeps (greeting z ∷ is) is' v e = ground arith
greeting_keeps _ is' v e = absurd (cc)

question_keeps :
    (is is' : List Item) (q : Query) → take_question is ≡ some (q, is') → length is' ≤ length is
question_keeps (question p ∷ is) is' q e = ground arith
question_keeps _ is' q e = absurd (cc)

info_keeps : (is is' : List Item) → take_info is ≡ some (tt, is') → length is' ≤ length is
info_keeps (info ∷ is) is' e = ground arith
info_keeps _ is' e = absurd (cc)

wire-IsLawful : IsLawful wire
wire-IsLawful = record {
  uvarint_shrinks = number_shrinks;
  str_keeps = string_keeps;
  hello_keeps = greeting_keeps;
  query_keeps = λ v is is' q e. question_keeps is is' q e;
  block_info_keeps = info_keeps;
  write_keeps = λ ps is is' e. ground arith;
}

abbrev ask : Query
ask = record { id = codes "1"; body = codes "SELECT 7" }

-- the data behind a query: its code, the name of a table, a block without columns or rows
abbrev no_data : List Item
no_data = number 2 ∷ string [] ∷ info ∷ number 0 ∷ number 0 ∷ []

abbrev input : List Item
input =
    number 0
    ∷ greeting (pos 54459)
    ∷ string (codes "key")
    ∷ number 4
    ∷ number 1
    ∷ question ask
    ∷ no_data

abbrev talk_of : List Item → Session (List Item) (List Str)
talk_of is = record {
  net = is;
  version = pos 54459;
  eng = engine;
  db = [];
  sent = [];
  lost = [];
  log = [];
  closed = false;
}

driver : (ran : List Str) (q : Str) → IsTable (database ran q).1
driver ran q = elim (Bool-cases (contains q (codes "ghosts"))) [
  | inl e ↦ rw (e, database) tt
  | inr e ↦ rw (e, database) (refl, tt)
]

talk_test : length (handle_conn wire database (talk_of input)).0.sent ≡ 6
unfolding handle_conn run_on contains is_empty report same until to_upper add
talk_test = refl

handle_conn_ends_example :
    ((handle_conn wire database (talk_of input)).0.closed ≡ true)
    × ((handle_conn wire database (talk_of input)).1 ≢ out_of_fuel)
handle_conn_ends_example = handle_conn_ends wire wire-IsLawful database (talk_of input)

handle_query-IsTurn_example :
    IsTurn wire [] [] (handle_query wire database (talk_of (question ask ∷ no_data)))
unfolding drain_client_data
handle_query-IsTurn_example =
    handle_query-IsTurn wire database driver (talk_of (question ask ∷ no_data)) ask no_data [] refl
      refl

abbrev two_rows : QueryResult
two_rows = record {
  cols = record { name = codes "n"; type = codes "HUGEINT" } ∷ [];
  rows = (big_int (pos 5) ∷ []) ∷ (big_int (pos 6) ∷ []) ∷ [];
}

abbrev one_note : Report
one_note = add (codes "n") (codes "value exceeds int64 and is truncated") new
