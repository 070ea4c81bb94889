-- ===== src/Store.antt =====
-- internal/store: rows, batches and the backends.
pub mod Row
pub mod Errors
pub mod FromEvent
pub mod Chunk
pub mod Identifier
pub mod Cursor
pub mod Batches
pub mod Trino
pub mod Calendar
pub mod Cache
pub mod ClickHouse
pub mod Query
pub mod Truncate
