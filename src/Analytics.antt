-- ===== src/Analytics.antt =====
-- The worker's analytics services (apps/worker/src/services).
pub mod Observation
pub mod Row
pub mod Schedule
pub mod Sweeper
pub mod Outbox
pub mod Tests
