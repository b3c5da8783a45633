-- ===== src/Telegram.antt =====
-- app/telegram: the client of the Bot API, and how it splits a message.
pub mod Client
pub mod Attempts
pub mod Split
pub mod Chunks
