-- ===== src/Clickhouse/Packets/Blocks.antt =====
-- The packets of a reply: every block can be encoded, and what the blocks hold.
use spoofdb.Base.{
  ℕ, ◌≡◌, refl, ◌∙◌, true, false, List, [], ◌∷◌, ◌++◌, map, Option, none, some, arith, length, All,
  All-append, append_assoc, Bool-cases, inl, inr, if◌then◌else◌,
}
use spoofdb.Base.Int.{ℤ}
use spoofdb.Text.{Str, Unicode}
use spoofdb.Value.{Value, QueryResult}
use spoofdb.Value.Print.{Formats}
use spoofdb.Fidelity.{Report, is_empty, warnings}
use spoofdb.Clickhouse.Columns.{Builder, build_input}
use spoofdb.Clickhouse.Columns.Shape.{IsFilled, IsWide, IsBuilt, build_input-IsBuilt}
use spoofdb.Clickhouse.Wire.{
  LogCell, InputColumn, result_column, log_column, Block, Packet, server_hello, pong, block_packet,
  end_of_stream, exception, Wire,
}
use spoofdb.Clickhouse.Packets.{log_columns, log_part, data_part, behind, rows_part, result_packets}

-- the number of cells of a column
abbrev pub height : InputColumn → ℕ
height (result_column b) = length b.cells
height (log_column name cells) = length cells

-- a block that can be encoded: as many columns as it says, each with as many cells as it has rows
abbrev pub IsBlock : Packet → Type 0
IsBlock (block_packet code table version blk cols) =
    (length cols ≡ blk.columns) × All (λ c. height c ≡ blk.rows) cols
IsBlock (server_hello h v) = ⊥
IsBlock pong = ⊥
IsBlock end_of_stream = ⊥
IsBlock (exception c n m t b) = ⊥

-- the packets that end a reply
abbrev pub IsFinal : Packet → Type 0
IsFinal end_of_stream = Unit
IsFinal (exception c n m t b) = Unit
IsFinal (server_hello h v) = ⊥
IsFinal pong = ⊥
IsFinal (block_packet code table version blk cols) = ⊥

-- the answer to one query: blocks that can be encoded, and one final packet behind them
pub record IsReply (ps : List Packet) : Type 0 where
  pub body : List Packet
  pub last : Packet
  pub split : ps ≡ body ++ last ∷ []
  pub blocks : All IsBlock body
  pub final : IsFinal last

-- no panic, and packets with a property
abbrev pub Holds : (List Packet → Type 0) → Option (List Packet) → Type 0
Holds P none = ⊥
Holds P (some ps) = P ps

length-columns : (bs : List Builder) → length (map result_column bs) ≡ length bs
length-columns [] = refl
length-columns (b ∷ bs) = omega (arith, length-columns bs)

columns_height :
    (n : ℕ) (bs : List Builder) → IsFilled n bs → All (λ c. height c ≡ n) (map result_column bs)
columns_height n [] h = tt
columns_height n (b ∷ bs) h = (h.0, columns_height n bs h.1)

length-cells : (f : Str → LogCell) (ws : List Str) → length (map f ws) ≡ length ws
length-cells f [] = refl
length-cells f (t ∷ ws) = omega (arith, length-cells f ws)

module _ {Net : Type 0} (w : Wire Net) where
  data_part-IsBlock :
      (version : ℤ) (blk : Block) (o : Option (List Builder))
      → IsBuilt blk.columns blk.rows o
      → Holds (All IsBlock) (data_part w version blk o)
  unfolding data_part
  data_part-IsBlock version blk none h = h
  data_part-IsBlock version blk (some bs) h =
      ((length-columns bs ∙ h.0, columns_height blk.rows bs h.1), tt)

  height-log_columns :
      (id : Str) (now : ℤ) (ws : List Str)
      → All (λ c. height c ≡ length ws) (log_columns w id now ws)
  unfolding log_columns
  height-log_columns id now ws = (
    length-cells _ ws,
    (
      length-cells _ ws,
      (
        length-cells _ ws,
        (
          length-cells _ ws,
          (length-cells _ ws, (length-cells _ ws, (length-cells _ ws, (length-cells _ ws, tt)))),
        ),
      ),
    ),
  )

  behind-IsReply :
      (o o' : Option (List Packet)) (logs : List Packet)
      → Holds (All IsBlock) o
      → Holds (All IsBlock) o'
      → All IsBlock logs
      → Holds IsReply (behind w o (behind w o' (some (logs ++ end_of_stream ∷ []))))
  behind-IsReply none o' logs h h' k = h
  behind-IsReply (some ps) none logs h h' k = h'
  behind-IsReply (some ps) (some qs) logs h h' k = record {
    body = ps ++ (qs ++ logs);
    last = end_of_stream;
    split = simp append_assoc;
    blocks = All-append IsBlock ps (qs ++ logs) h (All-append IsBlock qs logs h' k);
    final = tt;
  }

  module _ ⦃u : Unicode⦄ ⦃fm : Formats⦄ where
    log_part-IsBlock :
        (version : ℤ) (id : Str) (now : ℤ) (rep : Report)
        → All IsBlock (log_part w version id now rep)
    unfolding log_part
    log_part-IsBlock version id now rep = elim (Bool-cases (is_empty rep)) [
      | inl q ↦ rw (q, if◌then◌else◌) tt
      | inr q ↦ elim (Bool-cases (w.has_server_logs version)) [
        | inl q' ↦ rw (q, q', if◌then◌else◌) ((refl, height-log_columns id now (warnings rep)), tt)
        | inr q' ↦ rw (q, q', if◌then◌else◌) tt
      ]
    ]

    rows_part-IsBlock :
        (version : ℤ) (res : QueryResult) (rows : List (List Value))
        → res.rows ≡ rows
        → IsBuilt (length res.cols) (length res.rows) (build_input res true)
        → Holds (All IsBlock) (rows_part w version res)
    unfolding rows_part
    rows_part-IsBlock version res [] e h = rw (e, rows_part) tt
    rows_part-IsBlock version res (row ∷ rows) e h =
        rw (e, rows_part)
          (data_part-IsBlock version (record { columns = length res.cols; rows = length res.rows })
            (build_input res true) h)

    -- Where the rows of a result are as wide as its columns, the reply is built without a panic: it is
    -- blocks of which each has the columns and, in each column, the cells that it says, as EncodeBlock
    -- asks for, and EndOfStream behind them.
    pub result_packets-IsReply :
        (version : ℤ) (res : QueryResult) (id : Str) (rep : Report) (now : ℤ)
        → IsWide (length res.cols) res.rows
        → Holds IsReply (result_packets w version res id rep now)
    unfolding result_packets
    result_packets-IsReply version res id rep now h =
        behind-IsReply
          (data_part w version (record { columns = length res.cols; rows = 0 })
            (build_input res false))
          (rows_part w version res) (log_part w version id now rep)
          (data_part-IsBlock version (record { columns = length res.cols; rows = 0 })
            (build_input res false) (build_input-IsBuilt res h).1)
          (rows_part-IsBlock version res res.rows refl (build_input-IsBuilt res h).0)
          (log_part-IsBlock version id now rep)
