-- ===== src/Bybit.antt =====
-- app/bybit: the domain models and the live-price feed.
pub mod Models
pub mod WebSocket
pub mod Json
pub mod Normalizer
pub mod Rest
pub mod Manager
