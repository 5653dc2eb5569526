-- ===== src/Clickhouse/Packets.antt =====
-- internal/clickhouse/handler.go: the packets of a reply: `sendResult`, `writeBlockPacket`,
-- `writeLogPacket` and `sendException`, up to the write.
pub mod Blocks
pub mod Rows
use spoofdb.Base.{
  Bool, true, false, List, [], ◌∷◌, ◌++◌, map, Option, none, some, if◌then◌else◌, length,
}
use spoofdb.Base.Int.{ℤ}
use spoofdb.Text.{Str, codes, Unicode}
use spoofdb.Value.{QueryResult}
use spoofdb.Value.Print.{Formats}
use spoofdb.Fidelity.{Report, is_empty, warnings}
use spoofdb.Clickhouse.Columns.{Builder, build_input}
use spoofdb.Clickhouse.Wire.{
  ServerCode, server_data, server_log, LogCell, log_time, log_number, log_text, InputColumn,
  result_column, log_column, Block, Packet, block_packet, end_of_stream, exception, Wire,
}

module _ {Net : Type 0} (w : Wire Net) where
  -- `writeBlockPacket`
  unfoldable pub write_block_packet : ServerCode → ℤ → Block → List InputColumn → Packet
  write_block_packet code version blk cols =
      block_packet code (if w.has_temp_tables version then some [] else none) version blk cols

  -- one column of the log, from what each warning appends to it
  abbrev pub log_of : Str → (Str → LogCell) → List Str → InputColumn
  log_of name f ws = log_column name (map f ws)

  -- the columns of `writeLogPacket`
  unfoldable pub log_columns : Str → ℤ → List Str → List InputColumn
  log_columns query_id now ws =
      log_of (codes "event_time") (λ _. log_time now) ws
      ∷ log_of (codes "event_time_microseconds") (λ _. log_number 0) ws
      ∷ log_of (codes "host_name") (λ _. log_text (codes "spoofdb")) ws
      ∷ log_of (codes "query_id") (λ _. log_text query_id) ws
      ∷ log_of (codes "thread_id") (λ _. log_number 0) ws
      ∷ log_of (codes "priority") (λ _. log_number 4) ws
      ∷ log_of (codes "source") (λ _. log_text (codes "spoofdb")) ws
      ∷ log_of (codes "text") (λ t. log_text (codes "spoofdb: " ++ t)) ws
      ∷ []

  -- `writeLogPacket`
  unfoldable pub write_log_packet : ℤ → Str → ℤ → List Str → Packet
  unfolding write_block_packet log_columns
  write_log_packet version query_id now ws =
      let cols = log_columns query_id now ws in
      write_block_packet server_log version (record { columns = length cols; rows = length ws })
        cols

  -- one block of `sendResult`, where its columns can be built
  unfoldable pub data_part : ℤ → Block → Option (List Builder) → Option (List Packet)
  unfolding write_block_packet
  data_part version blk none = none
  data_part version blk (some bs) =
      some (write_block_packet server_data version blk (map result_column bs) ∷ [])

  -- packets behind packets; a panic (`none`) leaves nothing
  abbrev pub behind : Option (List Packet) → Option (List Packet) → Option (List Packet)
  behind (some ps) (some qs) = some (ps ++ qs)
  behind (some ps) none = none
  behind none o = none

  module _ ⦃u : Unicode⦄ ⦃fm : Formats⦄ where
    -- the log packet of `sendResult`, where there is one
    unfoldable pub log_part : ℤ → Str → ℤ → Report → List Packet
    unfolding write_log_packet
    log_part version query_id now rep =
        if is_empty rep
        then []
        else if w.has_server_logs version
        then write_log_packet version query_id now (warnings rep) ∷ []
        else []

    -- the data block of `sendResult`, where the result has rows
    unfoldable pub rows_part : ℤ → QueryResult → Option (List Packet)
    unfolding data_part build_input
    rows_part version res = elim res.rows [
      | [] ↦ some []
      | row ∷ rows ↦
          data_part version (record { columns = length res.cols; rows = length res.rows })
            (build_input res true)
    ]

    -- the buffer of `sendResult`; none is a panic
    unfoldable pub result_packets : ℤ → QueryResult → Str → Report → ℤ → Option (List Packet)
    unfolding rows_part log_part
    result_packets version res query_id rep now =
        behind
          (data_part version (record { columns = length res.cols; rows = 0 })
            (build_input res false))
          (behind (rows_part version res)
            (some (log_part version query_id now rep ++ end_of_stream ∷ [])))

-- the buffer of `sendException`
unfoldable pub exception_packet : Str → Packet
exception_packet m = exception 1 (codes "DB::Exception") m [] false
