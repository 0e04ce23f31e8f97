-- ===== src/Auth.antt =====
-- internal/auth: the login and its rate limiter.
pub mod Limiter
pub mod Login
pub mod Session
pub mod Block
pub mod Tests
