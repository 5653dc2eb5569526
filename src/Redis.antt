-- ===== src/Redis.antt =====
-- internal/redis: the embedded stores and their seeding from dumps.
pub mod Seed
pub mod Start
