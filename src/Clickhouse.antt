-- ===== src/Clickhouse.antt =====
-- internal/clickhouse: the ClickHouse protocol.
pub mod Columns
pub mod Report
pub mod Wire
pub mod Packets
pub mod Session
