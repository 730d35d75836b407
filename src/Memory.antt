-- ===== src/Memory.antt =====
-- The memory tiers and what is accounted in them (include/hypermoe/memory, src/memory).
pub mod Tier
pub mod Manager
