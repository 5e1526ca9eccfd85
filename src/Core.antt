-- ===== src/Core.antt =====
-- app/core: the exceptions and their handlers, the settings, and the token primitives.
pub mod Errors
pub mod Config
pub mod Security
