-- ===== src/Notify.antt =====
-- crates/laplace-model-rt/src/async_notify.rs: the model notify.
pub mod Waiters
pub mod Waits
