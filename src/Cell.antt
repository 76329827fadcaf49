-- ===== src/Cell.antt =====
-- crates/laplace-model-rt/src/arc_swap.rs: the model cell with versions, and its cache.
pub mod Swap
pub mod Versions
