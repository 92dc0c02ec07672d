-- ===== src/Core.antt =====
-- koraku/core: the stores and guards that every request goes through.
pub mod TtlCache
pub mod RateLimit
pub mod SessionStore
pub mod Redact
