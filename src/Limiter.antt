-- ===== src/Limiter.antt =====
-- apps/api/src/common/middleware/rateLimit.middleware.ts: how many requests a client may send.
pub mod Store
pub mod Middleware
pub mod Environment
pub mod Laws
pub mod Configured
mod Tests
