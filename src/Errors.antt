-- ===== src/Errors.antt =====
-- crates/laplace-interfaces/src/error: the error codes and the errors of a tenant.
pub mod Codes
pub mod TenantErrors
pub mod Arriving
