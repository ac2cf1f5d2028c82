-- ===== src/Domain.antt =====
-- The service's values and contracts (market-info-service/internal/domain).
pub mod Text
pub mod Errors
pub mod Time
pub mod Interval
pub mod Task
pub mod MarketData
pub mod Quotes
pub mod Classification
pub mod Catalog
