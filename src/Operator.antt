-- ===== src/Operator.antt =====
-- apps/worker/src/services/autonomous-operator.service.ts.
pub mod Record
pub mod Lease
pub mod Slot
pub mod Schedule
pub mod Cycle
pub mod Exclusion
pub mod SlotSearch
pub mod Cleared
pub mod Keeps
pub mod Bounds
pub mod Released
pub mod Tests
