-- ===== src/Storage.antt =====
-- The storage of packed experts (src/storage).
pub mod Bytes
pub mod Index
