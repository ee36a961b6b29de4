-- ===== src/RateLimit.antt =====
-- The in-memory rate limiter of a server process: app/shared/auth/rate_limit.
pub mod Limiter
mod Tests
