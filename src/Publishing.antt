-- ===== src/Publishing.antt =====
-- apps/worker/src/processors/publishing.processor.ts.
pub mod Post
pub mod Effect
pub mod Classify
pub mod Text
pub mod Recovery
pub mod Steps
pub mod Polling
pub mod Publish
pub mod Commit
pub mod Process
pub mod Keeps
pub mod Frame
pub mod Ends
pub mod Sending
pub mod Once
pub mod Fenced
pub mod Completes
pub mod Deadline
pub mod Adoption
pub mod Kinds
pub mod Reconcile
mod Tests
