-- ===== src/Persistence.antt =====
-- app/persistence: the tables and the data access layer over them.
pub mod Tables
pub mod Outbox
pub mod Instruments
pub mod Listings
pub mod Samples
pub mod KeyValue
pub mod Lock
pub mod Migrations
