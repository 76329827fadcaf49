-- ===== src/Timer.antt =====
-- crates/laplace-model-rt/src/async_time.rs: sleeps, timeouts and intervals on a virtual clock.
pub mod Clock
pub mod Sleep
pub mod Interval
pub mod Waiting
pub mod Ticking
