-- ===== src/Scheduler.antt =====
-- The scheduler (src/scheduler).
pub mod Lifecycle
pub mod Tasks
pub mod Requests
pub mod Workers
pub mod Prefetches
