-- ===== src/Mysql.antt =====
-- internal/mysql: the MySQL protocol.
pub mod Text
pub mod Report
pub mod Handler
