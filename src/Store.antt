-- ===== src/Store.antt =====
-- The durable task queue (market-info-service/internal/repository/postgres).
pub mod FailureRequest
pub mod Database
pub mod Checkpoints
pub mod Bars
pub mod Issues
pub mod Queue
pub mod Commits
pub mod Rows
pub mod Lifecycle
pub mod Claims
pub mod Accepted
pub mod Recovery
pub mod Runs
pub mod Fencing
pub mod Schedules
pub mod Backfills
mod Samples
