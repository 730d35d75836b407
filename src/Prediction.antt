-- ===== src/Prediction.antt =====
-- src/prediction: the counters of the experts that were selected, and of what followed what.
pub mod Counts
pub mod Selections
pub mod Database
pub mod History
