-- ===== src/Tenant.antt =====
-- crates/laplace-interfaces/src/domain/tenant: the tiers of tenants, their limits and their metadata.
pub mod Tiers
pub mod Metadata
pub mod Upgrades
