-- ===== src/Middleware.antt =====
-- Package middleware (apps/api/internal/middleware): the limits on requests and attempts.
pub mod Limiter
pub mod RateLimit
