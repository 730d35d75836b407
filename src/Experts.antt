-- ===== src/Experts.antt =====
-- The expert manager (include/hypermoe/experts, src/experts/expert_manager): which expert lies in
-- which memory tier.
pub mod State
pub mod Steps
pub mod Moves
pub mod Operations
pub mod Register
pub mod Residency
pub mod Leases
pub mod Fuel
pub mod Failures
pub mod Adoption
pub mod Pressure
