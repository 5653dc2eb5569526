-- ===== src/Engine.antt =====
-- internal/engine: the wrapper round the in-process DuckDB.
pub mod Errors
pub mod Run
pub mod Sources
pub mod Attach
pub mod Pull
pub mod Load
pub mod Types
