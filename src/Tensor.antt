-- ===== src/Tensor.antt =====
-- Tensor metadata (src/tensor): shapes with strides, and views with their bounds.
pub mod Shape
pub mod View
