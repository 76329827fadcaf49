-- ===== src/Tenant/Tiers.antt =====
-- crates/laplace-interfaces/src/domain/tenant/tier.rs.
use laplace.Prelude.{
  ℕ, ◌+◌, ◌-◌, String, Bool, true, false, Option, none, some, if◌then◌else◌, ltb, ◌==◌,
}

pub data TenantTier : Type 0 where
  free standard turbo pro enterprise : TenantTier

unfoldable pub as_u8 : TenantTier → ℕ
as_u8 free = 0
as_u8 standard = 1
as_u8 turbo = 2
as_u8 pro = 3
as_u8 enterprise = 4

unfoldable pub from_u8 : ℕ → Option TenantTier
from_u8 value =
    if value == 0
    then some free
    else if value == 1
    then some standard
    else if value == 2
    then some turbo
    else if value == 3
    then some pro
    else if value == 4
    then some enterprise
    else none

unfoldable pub uses_turbo_acceleration : TenantTier → Bool
uses_turbo_acceleration free = false
uses_turbo_acceleration standard = false
uses_turbo_acceleration turbo = true
uses_turbo_acceleration pro = true
uses_turbo_acceleration enterprise = true

unfoldable pub has_sentinel_monitoring : TenantTier → Bool
has_sentinel_monitoring enterprise = true
has_sentinel_monitoring _ = false

unfoldable pub name : TenantTier → String
name free = "Free"
name standard = "Standard"
name turbo = "Turbo"
name pro = "Pro"
name enterprise = "Enterprise"

unfoldable pub can_upgrade_to : TenantTier → TenantTier → Bool
unfolding as_u8
can_upgrade_to this target = ltb (as_u8 this) (as_u8 target)

unfoldable pub next_tier : TenantTier → Option TenantTier
unfolding as_u8 from_u8
next_tier this = from_u8 (as_u8 this + 1)

unfoldable pub previous_tier : TenantTier → Option TenantTier
unfolding as_u8 from_u8
previous_tier this = if as_u8 this == 0 then none else from_u8 (as_u8 this - 1)

unfoldable pub supports_turbo : TenantTier → Bool
supports_turbo turbo = true
supports_turbo pro = true
supports_turbo enterprise = true
supports_turbo _ = false
