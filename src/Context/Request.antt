-- ===== src/Context/Request.antt =====
-- crates/laplace-interfaces/src/domain/context.rs. The clock's answer is an argument.
use laplace.Prelude.{
  ℕ, ◌-◌, ◌^◌, String, str_eq, Bool, true, false, ◌&&◌, not, Option, none, some, min, leb, ◌==◌,
  if◌then◌else◌,
}
use laplace.Tenant.Tiers.{TenantTier, standard, turbo, as_u8, from_u8, uses_turbo_acceleration}
use laplace.Context.Priority.{PriorityLevel, normal, high, priority_as_u8, priority_from_u8}

-- `u32::MAX`.
abbrev pub no_turbo_slot : ℕ
no_turbo_slot = 2 ^ 32 - 1

pub record SovereignContext : Type 0 where
  pub request_id : String
  pub tenant_id : String
  pub trace_id : String
  pub priority : ℕ
  pub tier : ℕ
  pub is_turbo_mode : Bool
  pub timestamp : ℕ
  pub turbo_slot : ℕ

unfoldable pub new_context : (request_id tenant_id trace_id : String) (now : ℕ) → SovereignContext
unfolding priority_as_u8 as_u8
new_context request_id tenant_id trace_id now = record {
  request_id = request_id;
  tenant_id = tenant_id;
  trace_id = trace_id;
  priority = priority_as_u8 high;
  tier = as_u8 standard;
  is_turbo_mode = false;
  timestamp = now;
  turbo_slot = no_turbo_slot;
}

unfoldable pub new_turbo : (request_id tenant_id trace_id : String) (now : ℕ) → SovereignContext
unfolding priority_as_u8 as_u8
new_turbo request_id tenant_id trace_id now = record {
  request_id = request_id;
  tenant_id = tenant_id;
  trace_id = trace_id;
  priority = priority_as_u8 high;
  tier = as_u8 turbo;
  is_turbo_mode = true;
  timestamp = now;
  turbo_slot = no_turbo_slot;
}

-- `Default for SovereignContext`.
unfoldable pub default_context : SovereignContext
unfolding priority_as_u8 as_u8
default_context = record {
  request_id = "default";
  tenant_id = "default";
  trace_id = "default";
  priority = priority_as_u8 normal;
  tier = as_u8 standard;
  is_turbo_mode = false;
  timestamp = 0;
  turbo_slot = no_turbo_slot;
}

unfoldable pub with_priority : ℕ → SovereignContext → SovereignContext
with_priority priority this = record this { priority = min priority 5 }

unfoldable pub with_tier : TenantTier → SovereignContext → SovereignContext
unfolding as_u8 uses_turbo_acceleration
with_tier tier this = record this {
  tier = as_u8 tier;
  is_turbo_mode = if not (uses_turbo_acceleration tier) then false else this.is_turbo_mode;
}

unfoldable pub allocate_turbo_slot : ℕ → SovereignContext → SovereignContext
allocate_turbo_slot slot this = record this { turbo_slot = slot }

unfoldable pub spawn_child :
    (new_request_id : String) (now : ℕ) → SovereignContext → SovereignContext
spawn_child new_request_id now this = record this {
  request_id = new_request_id;
  timestamp = now;
  turbo_slot = no_turbo_slot;
}

abbrev pub is_empty : String → Bool
is_empty s = str_eq s ""

unfoldable pub is_valid : SovereignContext → Bool
unfolding from_u8 uses_turbo_acceleration
is_valid this =
    let has_ids =
      not (is_empty this.request_id)
      && (not (is_empty this.tenant_id) && not (is_empty this.trace_id)) in
    let priority_valid = leb this.priority 5 in
    let tier_valid = leb this.tier 4 in
    let turbo_consistent : Bool =
      if this.is_turbo_mode
      then elim (from_u8 this.tier) [ some t ↦ uses_turbo_acceleration t | none ↦ false ]
      else true in
    has_ids && (priority_valid && (tier_valid && turbo_consistent))

-- `saturating_sub`.
unfoldable pub elapsed_ns : (now : ℕ) → SovereignContext → ℕ
elapsed_ns now this = now - this.timestamp

unfoldable pub has_turbo_slot : SovereignContext → Bool
has_turbo_slot this = not (this.turbo_slot == no_turbo_slot)

unfoldable pub get_turbo_slot : SovereignContext → Option ℕ
get_turbo_slot this = if not (this.turbo_slot == no_turbo_slot) then some this.turbo_slot else none

unfoldable pub priority_level : SovereignContext → Option PriorityLevel
unfolding priority_from_u8
priority_level this = priority_from_u8 this.priority

unfoldable pub tenant_tier : SovereignContext → Option TenantTier
unfolding from_u8
tenant_tier this = from_u8 this.tier
