-- ===== src/Auth.antt =====
-- The API's refresh tokens (apps/api/src/auth).
pub mod RefreshToken
