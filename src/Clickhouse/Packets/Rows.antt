-- ===== src/Clickhouse/Packets/Rows.antt =====
-- What the blocks of a reply hold: the rows of the result and of the log.
use spoofdb.Base.{ℕ, ◌+◌, ◌≡◌, map, List, [], ◌∷◌, ◌++◌, if◌then◌else◌}
use spoofdb.Base.Int.{ℤ}
use spoofdb.Text.{Str, codes, Unicode, same}
use spoofdb.Value.{Value}
use spoofdb.Value.Print.{Formats}
use spoofdb.Fidelity.{Report, warnings}
use spoofdb.Clickhouse.Wire.{
  server_data, server_log, LogCell, log_time, log_number, log_text, InputColumn, result_column,
  log_column, Packet, server_hello, pong, block_packet, end_of_stream, exception, Wire,
}

-- the rows of the data blocks
abbrev pub data_rows : List Packet → ℕ
data_rows [] = 0
data_rows (block_packet server_data table version blk cols ∷ ps) = blk.rows + data_rows ps
data_rows (block_packet server_log table version blk cols ∷ ps) = data_rows ps
data_rows (server_hello h v ∷ ps) = data_rows ps
data_rows (pong ∷ ps) = data_rows ps
data_rows (end_of_stream ∷ ps) = data_rows ps
data_rows (exception c n m t b ∷ ps) = data_rows ps

abbrev cell_texts : List LogCell → List Str
cell_texts [] = []
cell_texts (log_text t ∷ cells) = t ∷ cell_texts cells
cell_texts (log_time z ∷ cells) = cell_texts cells
cell_texts (log_number n ∷ cells) = cell_texts cells

-- what the columns with the name "text" hold
abbrev pub column_texts : List InputColumn → List Str
column_texts [] = []
column_texts (result_column b ∷ cols) = column_texts cols
column_texts (log_column name cells ∷ cols) =
    (if same name (codes "text") then cell_texts cells else []) ++ column_texts cols

-- the texts of the log blocks
abbrev pub log_texts : List Packet → List Str
log_texts [] = []
log_texts (block_packet server_log table version blk cols ∷ ps) = column_texts cols ++ log_texts ps
log_texts (block_packet server_data table version blk cols ∷ ps) = log_texts ps
log_texts (server_hello h v ∷ ps) = log_texts ps
log_texts (pong ∷ ps) = log_texts ps
log_texts (end_of_stream ∷ ps) = log_texts ps
log_texts (exception c n m t b ∷ ps) = log_texts ps

-- packets that hold `n` rows of a result and these texts in the log
abbrev pub Carry : ℕ → List Str → List Packet → Type 0
Carry n texts ps = (data_rows ps ≡ n) × (log_texts ps ≡ texts)

module _ {Net : Type 0} (w : Wire Net) where
  module _ ⦃u : Unicode⦄ ⦃fm : Formats⦄ where
    -- what a client of a version is told of a report
    abbrev pub told : ℤ → Report → List Str
    told version rep =
        if w.has_server_logs version then map (λ t. codes "spoofdb: " ++ t) (warnings rep) else []
