-- ===== src/Tests.antt =====
-- Concrete inputs, on which the theorems are applied and the definitions run.
pub mod Clients
pub mod Reading
pub mod Samples
pub mod Ingesting
pub mod Storing
pub mod Serving
pub mod Services
pub mod Querying
pub mod Caching
pub mod Pruning
pub mod Commands
pub mod Inserting
