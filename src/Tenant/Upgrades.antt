-- ===== src/Tenant/Upgrades.antt =====
-- What upgrades do to a tenant's tier and to its limits.
use laplace.Prelude.{
  ℕ, suc, ◌+◌, ◌≤◌, ◌<◌, ◌≡◌, inl, inr, refl, List, [], ◌∷◌, Bool-cases, ap, ltb, ltb→lt, String,
  arith,
}
use laplace.Tenant.Tiers.{
  TenantTier, as_u8, can_upgrade_to, uses_turbo_acceleration, has_sentinel_monitoring,
}
use laplace.Errors.TenantErrors.{invalid_tier_change}
use laplace.Tenant.Metadata.{
  ResourceConfig, for_tier, TenantMetadata, Changed, ok, err, new_tenant, uses_turbo, has_sentinel,
  upgrade_tier,
}

abbrev pub rank : TenantTier → ℕ
rank t = as_u8 t

-- A program that asks for upgrades, and goes on whether they are refused or not: what is left, and
-- how many were not refused.
unfoldable pub upgrade_all : List TenantTier → TenantMetadata → TenantMetadata × ℕ
unfolding upgrade_tier
upgrade_all [] this = (this, 0)
upgrade_all (t ∷ ts) this = elim (upgrade_tier this t) [
  | err e this' ↦ upgrade_all ts this'
  | ok this' ↦ let (last, n) = upgrade_all ts this' in (last, suc n)
]

-- The limits are those of the tier, and turbo and monitoring are those of the tier too.
abbrev pub Consistent : TenantMetadata → Type 0
Consistent this =
    (this.resource_config ≡ for_tier this.tier)
    × (uses_turbo this ≡ uses_turbo_acceleration this.tier)
    × (has_sentinel this ≡ has_sentinel_monitoring this.tier)

-- Each limit of the one is at most that of the other.
abbrev pub Within : ResourceConfig → ResourceConfig → Type 0
Within a b =
    (a.max_concurrent_requests ≤ b.max_concurrent_requests)
    × (a.max_execution_time ≤ b.max_execution_time)
    × (a.max_memory_mb ≤ b.max_memory_mb)
    × (a.max_cpu_time_ms ≤ b.max_cpu_time_ms)

for_tier-Within : (a b : TenantTier) → rank a ≤ rank b → Within (for_tier a) (for_tier b)
unfolding for_tier as_u8
for_tier-Within a b le = ground arith

turbo_of_tier :
    (t : TenantTier)
    → ((for_tier t).use_turbo_acceleration ≡ uses_turbo_acceleration t)
      × ((for_tier t).sentinel_monitoring ≡ has_sentinel_monitoring t)
unfolding for_tier uses_turbo_acceleration has_sentinel_monitoring
turbo_of_tier t = ground arith

-- How an upgrade ends: it is refused and nothing changes, unless the new tier is higher.
abbrev pub UpgradeLem : TenantMetadata → TenantTier → Changed → Type 0
UpgradeLem this t (err e this') =
    (rank t ≤ rank this.tier) × (e ≡ invalid_tier_change this.tier t) × (this' ≡ this)
UpgradeLem this t (ok this') =
    (rank this.tier < rank t) × (this'.tier ≡ t) × Consistent this' × (this'.active ≡ this.active)

upgrade_tier_lem :
    (this : TenantMetadata) (t : TenantTier) → UpgradeLem this t (upgrade_tier this t)
unfolding upgrade_tier uses_turbo has_sentinel can_upgrade_to
upgrade_tier_lem this t = elim (Bool-cases (ltb (rank this.tier) (rank t))) [
  | inl higher ↦
      rw (higher, upgrade_tier)
        (ltb→lt _ _ higher, refl, (refl, (turbo_of_tier t).0, (turbo_of_tier t).1), refl)
  | inr refused ↦ rw (refused, upgrade_tier) (ground arith, refl, refl)
]

rank-le : (t : TenantTier) → rank t ≤ 4
unfolding as_u8
rank-le t = ground arith

-- What holds after requests that began with the metadata `this`.
abbrev Grown : TenantMetadata → TenantMetadata × ℕ → Type 0
Grown this (last, n) = Consistent last × (rank this.tier + n ≤ rank last.tier)

upgrade_all-Grown :
    (ts : List TenantTier) (this : TenantMetadata)
    → Consistent this
    → Grown this (upgrade_all ts this)
unfolding upgrade_all
upgrade_all-Grown [] this k = (k, omega arith)
upgrade_all-Grown (t ∷ ts) this k =
    go (upgrade_all-Grown ts) (upgrade_tier this t) (upgrade_tier_lem this t)
  where
    go :
        ((this' : TenantMetadata) → Consistent this' → Grown this' (upgrade_all ts this'))
        → (r : Changed) → UpgradeLem this t r
        → Grown this (elim r [
          | err e this' ↦ upgrade_all ts this'
          | ok this' ↦ let (last, n) = upgrade_all ts this' in (last, suc n)
        ])
    go rest (err e this') (le, what, same) = rw same (rest this k)
    go rest (ok this') (lt, is_t, k', _) =
        let (k'', grown) = rest this' k' in (k'', omega (arith, grown, ap rank is_t))

new_tenant-Consistent :
    (tenant_id : String) (tier : TenantTier) (now_ms : ℕ)
    → Consistent (new_tenant tenant_id tier now_ms)
unfolding new_tenant uses_turbo has_sentinel
new_tenant-Consistent tenant_id tier now_ms = (refl, (turbo_of_tier tier).0, (turbo_of_tier tier).1)

-- However often a tenant asks for other tiers, at most four requests are granted, each of which
-- raises the tier; afterwards the limits and the features are those of the tier that it has then,
-- and no limit is below that of the tier that it began with.
pub upgrade_all_bounds :
    (tenant_id : String) (tier : TenantTier) (now_ms : ℕ) (ts : List TenantTier)
    → let (last, n) = upgrade_all ts (new_tenant tenant_id tier now_ms) in
      (rank tier + n ≤ rank last.tier)
      × (n ≤ 4)
      × Consistent last
      × Within (for_tier tier) last.resource_config
upgrade_all_bounds tenant_id tier now_ms ts =
    let this = new_tenant tenant_id tier now_ms in
    let (k, grown) = upgrade_all-Grown ts this (new_tenant-Consistent tenant_id tier now_ms) in
    let begins : rank this.tier ≡ rank tier = unfold new_tenant in refl in
    let last = (upgrade_all ts this).0 in
    (
      omega (arith, grown, begins),
      omega (arith, grown, begins, rank-le last.tier),
      k,
      rw k.0 (for_tier-Within tier last.tier (omega (arith, grown, begins))),
    )
