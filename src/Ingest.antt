-- ===== src/Ingest.antt =====
-- internal/ingest: the buffer between the HTTP endpoint and the store.
pub mod Dedupe
pub mod Flush
pub mod Run
