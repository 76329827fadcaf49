-- ===== src/Tracked.antt =====
-- crates/laplace-probe-sdk/src: the tracked primitives of the probe SDK.
pub mod Locks
pub mod Threads
pub mod Counting
pub mod Observed
pub mod Exclusion
pub mod Captured
