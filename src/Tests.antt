-- ===== src/Tests.antt =====
-- Runs of the definitions, and one instance of each theorem that has conditions.
mod Fixtures
mod Texts
mod Queries
mod Messages
mod Statements
mod Starts
mod Blocks
mod Databases
mod Loads
mod Types
mod Talks
mod Stores
mod Greetings
