-- ===== src/Store/ClickHouse.antt =====
-- internal/store/clickhouse.go: the ClickHouse backend.
pub mod Schema
pub mod Insert
pub mod Blocks
pub mod Delivery
pub mod Escape
pub mod Options
pub mod Reading
pub mod Token
pub mod Prune
