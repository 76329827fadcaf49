-- ===== src/Kraken.antt =====
-- laplace-interfaces/src/domain/kraken: the scenarios of virtual users, and scheduled chaos.
pub mod Chaos
pub mod Active
pub mod Scenario
pub mod Validated
