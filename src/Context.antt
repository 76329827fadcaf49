-- ===== src/Context.antt =====
-- crates/laplace-interfaces/src/domain/context.rs and scheduling.rs: the context of a request.
pub mod Priority
pub mod Request
pub mod Validity
