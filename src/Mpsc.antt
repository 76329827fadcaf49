-- ===== src/Mpsc.antt =====
-- crates/laplace-model-rt/src/mpsc.rs: the model mpsc channels, bounded and unbounded.
pub mod Bounded
pub mod Unbounded
pub mod Users
pub mod Protocol
pub mod Told
pub mod Keeps
pub mod Steps
pub mod Futures
pub mod Orders
