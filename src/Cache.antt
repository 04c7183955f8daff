-- ===== src/Cache.antt =====
-- shared/src/cache.rs: the cache of responses and the cache of addresses. The time is an argument, in
-- nanoseconds. Each function runs under the lock of the cache, from its first step to its last.
pub mod Lru
pub mod Key
pub mod Store
pub mod Domains
