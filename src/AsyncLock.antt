-- ===== src/AsyncLock.antt =====
-- crates/laplace-model-rt/src/async_mutex.rs and async_semaphore.rs: the boundaries that the model
-- locks report to an engine's `AsyncLockHook`.
pub mod Calls
pub mod Semaphore
pub mod Mutex
pub mod Lifetimes
pub mod MutexLife
pub mod CreatedOnce
pub mod RwLock
pub mod RwLives
