-- ===== src/RateLimit.antt =====
-- source/middleware: the in-process limits on requests and on failed logins.
pub mod Clock
pub mod Window
pub mod Throttle
pub mod Handler
mod Tests
