-- ===== src/Cache.antt =====
-- packages/cache: stored values with a life time.
pub mod Provider
pub mod Redis
pub mod Memory
pub mod Idempotency
