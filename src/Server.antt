-- ===== src/Server.antt =====
-- internal/server and internal/observability: the HTTP handlers and the counters.
pub mod Requests
pub mod Metrics
pub mod Ingest
pub mod Readiness
pub mod Routes
pub mod Links
pub mod Detail
pub mod Format
pub mod Filter
pub mod Pages
