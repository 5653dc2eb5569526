-- ===== src/Startup.antt =====
-- cmd/spoofdb: what is served from which sources.
pub mod Sources
pub mod Flags
pub mod Instances
pub mod Shards
