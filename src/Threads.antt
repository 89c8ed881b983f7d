-- ===== src/Threads.antt =====
-- packages/threads-client/src.
pub mod RateLimit
pub mod Token
pub mod Encryption
pub mod Tests
