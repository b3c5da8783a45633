-- ===== src/Health.antt =====
-- app/health/monitor.py and scripts/container_healthcheck.py: what the subsystems show, its
-- classification, the persisted snapshot, and the check that reads it.
pub mod State
pub mod Collect
pub mod Classify
pub mod Streaks
pub mod Snapshot
pub mod Summary
