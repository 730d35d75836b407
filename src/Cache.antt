-- ===== src/Cache.antt =====
-- The cache policies that choose which expert leaves a full tier
-- (include/hypermoe/experts/cache_policy.hpp, src/experts/expert_cache, src/cache).
pub mod Victim
pub mod Policy
pub mod Lru
pub mod Lfu
