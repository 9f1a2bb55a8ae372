-- ===== src/Jobs.antt =====
-- internal/jobs: the background jobs of the API server.
pub mod TtlSweep
pub mod Partition
pub mod Reconcile
pub mod PricingSync
pub mod Runner
