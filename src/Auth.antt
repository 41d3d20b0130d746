-- ===== src/Auth.antt =====
-- Package auth (internal/auth/auth.go): passwords, the one-time code, the rate limit.
pub mod Limiter
pub mod Totp
pub mod Password
