-- ===== src/Cache.antt =====
-- domain/globalmail/cache.go: the local cache of one playersrv process.
pub mod Conditions
pub mod Snapshot
pub mod Refresh
pub mod Singleflight
pub mod Build
pub mod Visibility
pub mod Freshness
pub mod Partial
