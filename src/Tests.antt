-- ===== src/Tests.antt =====
-- Runs of the theorems at concrete inputs: two-slot buffers, small maps, engines with one job.
pub mod Buffers
pub mod Maps
pub mod Jobs
pub mod Shared
pub mod Codec
pub mod Clients
pub mod Letters
pub mod Layouts
pub mod Gateways
pub mod Quotes
