-- ===== src/Oneshot.antt =====
-- crates/laplace-model-rt/src/oneshot.rs: the model oneshot channel.
pub mod Endpoints
pub mod Ends
pub mod Uses
