-- ===== src/Rules.antt =====
-- packages/types/src/rules.ts and apps/worker/src/services/rules-engine.service.ts: automation rules.
pub mod Condition
pub mod Comparison
pub mod Denotation
pub mod Budget
mod Tests
