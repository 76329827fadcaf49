-- ===== src/Session.antt =====
-- crates/laplace-probe-sdk/src/session.rs and task.rs: where events go, and the logical ids of the
-- threads and tasks that report them.
pub mod Sinks
pub mod Ids
pub mod Reused
pub mod Captures
