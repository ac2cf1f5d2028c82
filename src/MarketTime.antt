-- ===== src/MarketTime.antt =====
-- Exchange sessions (market-info-service/internal/markettime).
pub mod Date
pub mod Calendar
pub mod Nyse
pub mod Samples
