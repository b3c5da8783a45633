-- ===== src/Examples.antt =====
-- Test data, and the theorems applied to it.
mod Data
mod Policy
mod Delivery
mod Markets
mod Stream
mod Momentum
mod Chat
mod Health
mod Rest
mod Turns
