-- ===== src/Errors/TenantErrors.antt =====
-- crates/laplace-interfaces/src/error/tenant.rs: the errors of a tenant.
use laplace.Prelude.{ℕ, String, Bool, true, false}
use laplace.Tenant.Tiers.{TenantTier}

pub data TenantError : Type 0 where
  not_found : (tenant : String) → TenantError
  inactive : (tenant_id : String) → TenantError
  invalid_id : (tenant : String) → TenantError
  invalid_tier_change : (current requested : TenantTier) → TenantError
  quota_exceeded : (tenant : String) → TenantError
  acquire_timeout : (tenant : String) → TenantError
  execution_timeout : (tenant_id : String) (limit_ms elapsed_ms : ℕ) → TenantError
  runtime_error : (what : String) → TenantError
  path_denied : (path : String) → TenantError
  turbo_pool_exhausted : (tenant_id : String) (available required : ℕ) → TenantError
  turbo_slot_state_error : (tenant_id expected actual : String) → TenantError
  turbo_slot_corruption : (tenant_id : String) → TenantError
  turbo_not_available : (tenant_id : String) (tier : TenantTier) → TenantError
  turbo_allocation_failed : (tenant_id reason : String) → TenantError
  internal : (what : String) → TenantError

unfoldable pub to_proto_code : TenantError → ℕ
to_proto_code (not_found _) = 1001
to_proto_code (inactive _) = 1002
to_proto_code (invalid_id _) = 1003
to_proto_code (invalid_tier_change _ _) = 1004
to_proto_code (quota_exceeded _) = 2001
to_proto_code (acquire_timeout _) = 2002
to_proto_code (execution_timeout _ _ _) = 2003
to_proto_code (runtime_error _) = 2004
to_proto_code (path_denied _) = 2005
to_proto_code (turbo_pool_exhausted _ _ _) = 3001
to_proto_code (turbo_slot_state_error _ _ _) = 3002
to_proto_code (turbo_slot_corruption _) = 3003
to_proto_code (turbo_not_available _ _) = 3004
to_proto_code (turbo_allocation_failed _ _) = 3005
to_proto_code (internal _) = 9000

unfoldable pub to_proto_category : TenantError → String
to_proto_category (not_found _) = "CLIENT_ERROR"
to_proto_category (inactive _) = "CLIENT_ERROR"
to_proto_category (invalid_id _) = "CLIENT_ERROR"
to_proto_category (invalid_tier_change _ _) = "CLIENT_ERROR"
to_proto_category (quota_exceeded _) = "QUOTA_EXCEEDED"
to_proto_category (acquire_timeout _) = "QUOTA_EXCEEDED"
to_proto_category (execution_timeout _ _ _) = "QUOTA_EXCEEDED"
to_proto_category (runtime_error _) = "EXECUTION_ERROR"
to_proto_category (path_denied _) = "EXECUTION_ERROR"
to_proto_category (turbo_pool_exhausted _ _ _) = "TURBO_ERROR"
to_proto_category (turbo_slot_state_error _ _ _) = "TURBO_ERROR"
to_proto_category (turbo_slot_corruption _) = "TURBO_ERROR"
to_proto_category (turbo_not_available _ _) = "TURBO_ERROR"
to_proto_category (turbo_allocation_failed _ _) = "TURBO_ERROR"
to_proto_category (internal _) = "INTERNAL_ERROR"

unfoldable pub is_recoverable : TenantError → Bool
is_recoverable (quota_exceeded _) = true
is_recoverable (acquire_timeout _) = true
is_recoverable (turbo_pool_exhausted _ _ _) = true
is_recoverable (turbo_allocation_failed _ _) = true
is_recoverable _ = false

unfoldable pub suggests_upgrade : TenantError → Bool
suggests_upgrade (quota_exceeded _) = true
suggests_upgrade (turbo_not_available _ _) = true
suggests_upgrade (execution_timeout _ _ _) = true
suggests_upgrade _ = false

unfoldable pub is_turbo_error : TenantError → Bool
is_turbo_error (turbo_pool_exhausted _ _ _) = true
is_turbo_error (turbo_slot_state_error _ _ _) = true
is_turbo_error (turbo_slot_corruption _) = true
is_turbo_error (turbo_not_available _ _) = true
is_turbo_error (turbo_allocation_failed _ _) = true
is_turbo_error _ = false

unfoldable pub extract_tenant_id : TenantError → String
extract_tenant_id (not_found tenant) = tenant
extract_tenant_id (invalid_id tenant) = tenant
extract_tenant_id (quota_exceeded tenant) = tenant
extract_tenant_id (acquire_timeout tenant) = tenant
extract_tenant_id (inactive tenant_id) = tenant_id
extract_tenant_id (execution_timeout tenant_id _ _) = tenant_id
extract_tenant_id (turbo_pool_exhausted tenant_id _ _) = tenant_id
extract_tenant_id (turbo_slot_state_error tenant_id _ _) = tenant_id
extract_tenant_id (turbo_slot_corruption tenant_id) = tenant_id
extract_tenant_id (turbo_not_available tenant_id _) = tenant_id
extract_tenant_id (turbo_allocation_failed tenant_id _) = tenant_id
extract_tenant_id _ = "unknown"
