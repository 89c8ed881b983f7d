-- ===== src/Safety.antt =====
-- apps/worker/src/services/safety-gate.service.ts: the audit of a draft before it is published.
pub mod Record
pub mod Walls
pub mod Audit
pub mod Override
pub mod Verdict
pub mod SingleUse
pub mod Grant
pub mod Lifecycle
mod Tests
