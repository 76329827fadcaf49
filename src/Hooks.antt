-- ===== src/Hooks.antt =====
-- crates/laplace-model-rt/src/hooks.rs: the ids that the model types are known by.
--
-- The process-wide counters are fields of `Ids`, and an operation that allocates returns `none`
-- where the source panics because a counter's 64 bits are used up.
pub mod Counters
pub mod Fresh
