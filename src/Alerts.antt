-- ===== src/Alerts.antt =====
-- app/alerts: the alert policy, the atomic recording of its decisions, and their delivery.
pub mod StateMachine
pub mod Formatter
pub mod Service
pub mod Dispatcher
