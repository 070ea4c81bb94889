-- ===== src/Store/Trino.antt =====
-- internal/store/trino.go: the Iceberg backend.
pub mod Open
pub mod Statements
pub mod Insert
pub mod Delivery
pub mod Clamp
pub mod Cost
pub mod Largest
pub mod Fits
pub mod Operations
