-- ===== src/Clickhouse/Wire.antt =====
-- What internal/clickhouse/handler.go reads and writes through ch-go's package proto and package
-- net: the interface `Wire`, with its laws, and programs that read.
use spoofdb.Base.{ℕ, suc, ◌≤◌, ◌≡◌, Bool, true, false, List, Option, none, some}
use spoofdb.Base.Int.{ℤ}
use spoofdb.Text.{Str}
use spoofdb.Clickhouse.Columns.{Builder}

-- the packets of a client, by `proto.ClientCode`
pub data ClientCode : Type 0 where
  client_hello client_query client_data client_cancel client_ping client_other : ClientCode

-- the codes of the packets with a block
pub data ServerCode : Type 0 where
  server_data server_log : ServerCode

-- the fields of `proto.Query` that are used
pub record Query : Type 0 where
  pub id : Str
  pub body : Str

-- the fields of `proto.ServerHello` that are set
pub record ServerHello : Type 0 where
  pub name : Str
  pub major : ℕ
  pub minor : ℕ
  pub revision : ℕ
  pub timezone : Str
  pub display_name : Str
  pub patch : ℕ

-- what a column of a log packet has been given to append
pub data LogCell : Type 0 where
  log_time : ℤ → LogCell
  log_number : ℕ → LogCell
  log_text : Str → LogCell

-- `proto.InputColumn`: a column of a result, or a column of the log with its name
pub data InputColumn : Type 0 where
  result_column : Builder → InputColumn
  log_column : Str → List LogCell → InputColumn

-- the fields of `proto.Block` that are set
pub record Block : Type 0 where
  pub columns : ℕ
  pub rows : ℕ

-- What is put into a `proto.Buffer`: the Hello of the server, for a revision; a block with its code,
-- the name of a temporary table where the client expects one, and the revision; an exception with
-- its code, name, message, stack trace and whether another is nested in it.
pub data Packet : Type 0 where
  server_hello : ServerHello → ℤ → Packet
  pong : Packet
  block_packet : ServerCode → Option Str → ℤ → Block → List InputColumn → Packet
  end_of_stream : Packet
  exception : ℕ → Str → Str → Str → Bool → Packet

-- What the code takes from its libraries, over the states of a connection. Each function gives
-- `none` where the library returns an error. `write` is `conn.Write` of a buffer, `now` the clock,
-- `server_revision` is `proto.Version`, and the next four are `In` of the features that the code asks
-- for. `size` is the number of bytes that the client has yet to send.
pub record Wire (Net : Type 0) : Type 0 where
  pub read_uvarint : Net → Option (ℕ × Net)
  pub read_str : Net → Option (Str × Net)
  pub read_hello : Net → Option (ℤ × Net)
  pub read_query : ℤ → Net → Option (Query × Net)
  pub read_block_info : Net → Option (Unit {0} × Net)
  pub write : List Packet → Net → Option Net
  pub now : Net → ℤ
  pub client_code : ℕ → ClientCode
  pub server_revision : ℕ
  pub has_addendum : ℤ → Bool
  pub has_temp_tables : ℤ → Bool
  pub has_block_info : ℤ → Bool
  pub has_server_logs : ℤ → Bool
  pub size : Net → ℕ

-- a number takes a byte at least, and no call puts bytes back
pub record IsLawful {Net : Type 0} (w : Wire Net) : Type 0 where
  pub uvarint_shrinks :
      (n n' : Net) (c : ℕ) → w.read_uvarint n ≡ some (c, n') → suc (w.size n') ≤ w.size n
  pub str_keeps : (n n' : Net) (s : Str) → w.read_str n ≡ some (s, n') → w.size n' ≤ w.size n
  pub hello_keeps : (n n' : Net) (v : ℤ) → w.read_hello n ≡ some (v, n') → w.size n' ≤ w.size n
  pub query_keeps :
      (v : ℤ) (n n' : Net) (q : Query) → w.read_query v n ≡ some (q, n') → w.size n' ≤ w.size n
  pub block_info_keeps : (n n' : Net) → w.read_block_info n ≡ some (tt, n') → w.size n' ≤ w.size n
  pub write_keeps : (ps : List Packet) (n n' : Net) → w.write ps n ≡ some n' → w.size n' ≤ w.size n

-- a program that reads, or fails
abbrev pub Read : Type 0 → Type 0 → Type 0
Read Net A = Net → Option (A × Net)

infixl 5 ◌>>=◌ ◌>>◌
abbrev pub ◌>>=◌ : {Net A B : Type 0} → Read Net A → (A → Read Net B) → Read Net B
◌>>=◌ m f n = elim (m n) [ none ↦ none | some (a, n') ↦ f a n' ]

abbrev pub ◌>>◌ : {Net A B : Type 0} → Read Net A → Read Net B → Read Net B
◌>>◌ m k = m >>= λ _. k

abbrev pub pure : {Net A : Type 0} → A → Read Net A
pure a n = some (a, n)

abbrev pub fail : {Net A : Type 0} → Read Net A
fail n = none

-- `if b { m }`
abbrev pub when : {Net A : Type 0} → Bool → Read Net A → Read Net (Unit {0})
when true m = m >> pure tt
when false m = pure tt
