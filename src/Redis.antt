-- ===== src/Redis.antt =====
-- data/redis/repository.go and routing.go.
pub mod Version
pub mod Client
pub mod Lifetimes
pub mod Repository
pub mod Routing
pub mod Lock
pub mod Index
pub mod CommandRecords
