-- ===== src/LockOrder.antt =====
-- The reference verifier of crates/laplace-probe-sdk/src/session.rs, which looks for two lock
-- acquisitions in opposite orders: the code in `Edges`, `Tracker` and `Verify`, its meaning for a
-- history of events in `Trace`, and the proofs that join the two.
pub mod Edges
pub mod Tracker
pub mod Verify
pub mod Trace
pub mod Nesting
pub mod Holding
pub mod Recording
pub mod Invariant
pub mod Steps
pub mod Scans
pub mod Verdict
pub mod Discipline
