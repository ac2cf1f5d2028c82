-- ===== src/Ingestion.antt =====
-- The execution of claimed tasks (market-info-service/internal/ingestion).
pub mod ProviderErrors
pub mod Contracts
pub mod Adapter
pub mod Capabilities
pub mod Fetch
pub mod Execution
pub mod Action
pub mod Execute
pub mod Quotes
pub mod Quality
pub mod Retry
pub mod Run
pub mod Worker
pub mod Backfill
pub mod ManualTasks
mod Samples
