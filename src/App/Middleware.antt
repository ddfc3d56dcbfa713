-- ===== src/App/Middleware.antt =====
-- crates/app/src/middleware: what is done around a handler.
pub mod RateLimit
pub mod Cookies
pub mod Security
pub mod HttpMetrics
