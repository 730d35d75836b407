-- ===== src/Runtime.antt =====
-- The key/value cache of a generation (src/runtime/cache).
pub mod KvCache
pub mod Sessions
