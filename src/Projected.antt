-- ===== src/Projected.antt =====
-- crates/laplace-probe-sdk/src/async_hooks.rs and task.rs: the hooks that make probe events of the
-- calls of the model primitives.
pub mod Kinds
pub mod AsyncHooks
pub mod TaskHook
pub mod Polls
pub mod Attribution
pub mod Sessions
