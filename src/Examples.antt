-- ===== src/Examples.antt =====
-- Tests, and the theorems at concrete inputs.
pub mod Memory
pub mod Cache
pub mod Experts
pub mod Storage
pub mod Pool
pub mod Scheduler
pub mod Runtime
pub mod Workers
pub mod Tensor
pub mod Fuel
pub mod Prediction
