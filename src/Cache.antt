-- ===== src/Cache.antt =====
-- internal/cache: the index of the artifacts and the cache over the local file system.
pub mod Index
pub mod Local
