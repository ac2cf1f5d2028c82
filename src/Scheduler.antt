-- ===== src/Scheduler.antt =====
-- The scheduling of collection windows (market-info-service/internal/scheduler).
pub mod Window
pub mod CatchUp
pub mod Sessions
pub mod Freshness
pub mod Targets
pub mod Batches
pub mod UsCatchUp
pub mod Incremental
mod Samples
