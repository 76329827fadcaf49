-- ===== src/StdLock.antt =====
-- crates/laplace-model-rt/src/mutex.rs and rwlock.rs: the model locks of threads.
pub mod Calls
pub mod Guards
pub mod Counts
pub mod Balance
