-- ===== src/Cache.antt =====
-- internal/cache: the Redis store and the cache manager of the read path.
pub mod Outcome
pub mod Redis
pub mod Store
pub mod Manager
mod Tests
