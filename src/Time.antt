-- ===== src/Time.antt =====
-- laplace-interfaces/src/domain/time: the events of the virtual clock.
pub mod Scheduled
pub mod Order
