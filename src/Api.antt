-- ===== src/Api.antt =====
-- internal/api: what the handlers do around the store.
pub mod Idempotency
pub mod Misses
