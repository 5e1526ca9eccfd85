-- ===== src/Http.antt =====
-- The middlewares of app/middlewares.
pub mod Middleware
pub mod Protection
pub mod Tests
