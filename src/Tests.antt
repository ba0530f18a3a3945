-- ===== src/Tests.antt =====
-- The theorems at concrete inputs.
mod Stores
mod Data
mod CacheTests
mod TableTests
mod PlayerTests
mod PublishTests
mod GatewayTests
mod CommandTests
mod QueueTests
mod SmallRedis
mod RedisTests
mod ServerTests
