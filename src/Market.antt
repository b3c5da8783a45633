-- ===== src/Market.antt =====
-- app/market: momentum, unique-coin aggregation, discovery and listings.
pub mod Value
pub mod Deduplication
pub mod Discovery
pub mod Listing
pub mod PriceEngine
pub mod Momentum
pub mod TickerPoll
