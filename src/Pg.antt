-- ===== src/Pg.antt =====
-- internal/pg: the Postgres listener.
pub mod Params
pub mod Statement
pub mod Encode
pub mod Report
pub mod Wire
pub mod State
pub mod Session
pub mod Startup
