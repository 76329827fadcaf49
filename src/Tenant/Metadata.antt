-- ===== src/Tenant/Metadata.antt =====
-- crates/laplace-interfaces/src/domain/tenant/model.rs.
--
-- A `Duration` is its milliseconds, `usize` has 64 bits, and the clock's answer is an argument.
use laplace.Prelude.{ℕ, String, str_append, Bool, true, false, not, if◌then◌else◌, u64_max}
use laplace.Errors.TenantErrors.{TenantError, inactive, invalid_tier_change}
use laplace.Tenant.Tiers.{TenantTier, free, standard, turbo, pro, enterprise, can_upgrade_to}

pub record ResourceConfig : Type 0 where
  pub max_concurrent_requests : ℕ
  pub max_execution_time : ℕ
  pub max_memory_mb : ℕ
  pub max_cpu_time_ms : ℕ
  pub use_turbo_acceleration : Bool
  pub sentinel_monitoring : Bool

unfoldable pub for_tier : TenantTier → ResourceConfig
for_tier free = record {
  max_concurrent_requests = 5;
  max_execution_time = 100;
  max_memory_mb = 128;
  max_cpu_time_ms = 100;
  use_turbo_acceleration = false;
  sentinel_monitoring = false;
}
for_tier standard = record {
  max_concurrent_requests = 20;
  max_execution_time = 500;
  max_memory_mb = 512;
  max_cpu_time_ms = 500;
  use_turbo_acceleration = false;
  sentinel_monitoring = false;
}
for_tier turbo = record {
  max_concurrent_requests = 100;
  max_execution_time = 2000;
  max_memory_mb = 2048;
  max_cpu_time_ms = 2000;
  use_turbo_acceleration = true;
  sentinel_monitoring = false;
}
for_tier pro = record {
  max_concurrent_requests = 500;
  max_execution_time = 10000;
  max_memory_mb = 8192;
  max_cpu_time_ms = 10000;
  use_turbo_acceleration = true;
  sentinel_monitoring = false;
}
for_tier enterprise = record {
  max_concurrent_requests = u64_max;
  max_execution_time = 60000;
  max_memory_mb = u64_max;
  max_cpu_time_ms = u64_max;
  use_turbo_acceleration = true;
  sentinel_monitoring = true;
}

pub record TenantMetadata : Type 0 where
  pub tenant_id : String
  pub tier : TenantTier
  pub resource_config : ResourceConfig
  pub active : Bool
  pub created_at : ℕ
  pub storage_tree : String
  pub fs_root : String

-- `Result<(), TenantError>`, with the metadata that `&mut self` leaves.
pub data Changed : Type 0 where
  ok : TenantMetadata → Changed
  err : TenantError → TenantMetadata → Changed

unfoldable pub new_tenant : (tenant_id : String) → TenantTier → (now_ms : ℕ) → TenantMetadata
unfolding for_tier
new_tenant tenant_id tier now_ms = record {
  tenant_id = tenant_id;
  tier = tier;
  resource_config = for_tier tier;
  active = true;
  created_at = now_ms;
  storage_tree = str_append "tenant_db_" tenant_id;
  fs_root = str_append "root/tenants/" tenant_id;
}

unfoldable pub uses_turbo : TenantMetadata → Bool
uses_turbo this = this.resource_config.use_turbo_acceleration

unfoldable pub has_sentinel : TenantMetadata → Bool
has_sentinel this = this.resource_config.sentinel_monitoring

unfoldable pub upgrade_tier : TenantMetadata → TenantTier → Changed
unfolding can_upgrade_to for_tier
upgrade_tier this new_tier =
    if not (can_upgrade_to this.tier new_tier)
    then err (invalid_tier_change this.tier new_tier) this
    else ok (record this { tier = new_tier; resource_config = for_tier new_tier })

unfoldable pub validate : TenantMetadata → Changed
validate this = if not this.active then err (inactive this.tenant_id) this else ok this
