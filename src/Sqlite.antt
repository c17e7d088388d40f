-- ===== src/Sqlite.antt =====
-- The SQLite board, crates/plugin-kanban-sqlite/src/lib.rs: its tables and statements, its reads, its
-- writes, and what is proved of them.
pub mod Store
pub mod Read
pub mod Write
pub mod Runs
pub mod Decode
pub mod Still
pub mod Atomic
pub mod Moves
pub mod Trail
pub mod Sound
pub mod Keeps
pub mod Histories
pub mod Claims
pub mod Effects
pub mod Readable
pub mod Listing
pub mod Sample
pub mod Examples
