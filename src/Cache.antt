-- ===== src/Cache.antt =====
-- The cache: its port and keys (internal/application/port/output/cache_repository.go) and the
-- in-memory implementation (internal/infrastructure/cache/memory/cache.go).
pub mod Keys
pub mod Memory
pub mod Port
pub mod Aside
