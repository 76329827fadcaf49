-- ===== src/TaskSet.antt =====
-- crates/laplace-model-rt/src/task_set.rs: pre-registered model tasks, their completion handles and
-- the observer that sees both.
pub mod Tasks
pub mod Polling
pub mod Running
pub mod Joining
pub mod Spawning
