-- ===== src/Context/Validity.antt =====
-- A context stays valid, whatever its builders do.
use laplace.Prelude.{
  ℕ, String, eq_iff, ◌≤◌, ◌≡◌, ◌≢◌, ◌∙◌, refl, zero, suc, Bool, true, false, ◌&&◌, some, List, [],
  ◌∷◌, arith,
}
use laplace.Tenant.Tiers.{
  TenantTier, free, standard, turbo, pro, enterprise, as_u8, from_u8, uses_turbo_acceleration,
}
use laplace.Context.Priority.{
  PriorityLevel, lowest, low, normal, high, critical, system_critical, priority_as_u8,
  priority_from_u8,
}
use laplace.Context.Request.{
  SovereignContext, new_context, new_turbo, with_priority, with_tier, allocate_turbo_slot,
  spawn_child, is_valid, priority_level, tenant_tier,
}

-- What a program does to a context; a child takes its parent's place.
pub data Change : Type 0 where
  prioritised : ℕ → Change
  tiered : TenantTier → Change
  slotted : ℕ → Change
  spawned : (request_id : String) (now : ℕ) → Change

unfoldable pub change : Change → SovereignContext → SovereignContext
unfolding with_priority with_tier allocate_turbo_slot spawn_child
change (prioritised p) this = with_priority p this
change (tiered t) this = with_tier t this
change (slotted s) this = allocate_turbo_slot s this
change (spawned r now) this = spawn_child r now this

unfoldable pub change_all : List Change → SovereignContext → SovereignContext
unfolding change
change_all [] this = this
change_all (c ∷ cs) this = change_all cs (change c this)

-- The ids that children get are not empty.
abbrev pub NamedChildren : List Change → Type 0
NamedChildren [] = Unit {0}
NamedChildren (spawned r now ∷ cs) = (r ≢ "") × NamedChildren cs
NamedChildren (_ ∷ cs) = NamedChildren cs

as_u8-from_u8 : (t : TenantTier) → from_u8 (as_u8 t) ≡ some t
unfolding from_u8 as_u8
as_u8-from_u8 t = ground arith

as_u8-le : (t : TenantTier) → as_u8 t ≤ 4
unfolding as_u8
as_u8-le t = ground arith

change-is_valid :
    (c : Change) (this : SovereignContext)
    → NamedChildren (c ∷ [])
    → is_valid this ≡ true
    → is_valid (change c this) ≡ true
unfolding change is_valid
change-is_valid (prioritised p) this n v = ground arith
change-is_valid (tiered t) this n v = ground (arith, as_u8-from_u8 t, as_u8-le t)
change-is_valid (slotted s) this n v = v
change-is_valid (spawned r now) this (n, _) v = ground (arith, eq_iff r "")

-- What the builders keep of a context.
abbrev Kept : SovereignContext → SovereignContext → Type 0
Kept first last =
    (is_valid last ≡ true) × (last.tenant_id ≡ first.tenant_id) × (last.trace_id ≡ first.trace_id)

change-ids :
    (c : Change) (this : SovereignContext)
    → ((change c this).tenant_id ≡ this.tenant_id) × ((change c this).trace_id ≡ this.trace_id)
unfolding change
change-ids (prioritised p) this = (refl, refl)
change-ids (tiered t) this = (refl, refl)
change-ids (slotted s) this = (refl, refl)
change-ids (spawned r now) this = (refl, refl)

first_named :
    (c : Change) (cs : List Change)
    → NamedChildren (c ∷ cs)
    → NamedChildren (c ∷ []) × NamedChildren cs
first_named (prioritised p) cs n = (tt, n)
first_named (tiered t) cs n = (tt, n)
first_named (slotted s) cs n = (tt, n)
first_named (spawned r now) cs (r_named, n) = ((r_named, tt), n)

change_all-Kept :
    (cs : List Change) (this : SovereignContext)
    → NamedChildren cs
    → is_valid this ≡ true
    → Kept this (change_all cs this)
unfolding change_all
change_all-Kept [] this n v = (v, refl, refl)
change_all-Kept (c ∷ cs) this n v =
    let (n_c, n_cs) = first_named c cs n in
    let (v', tenant, trace) =
      change_all-Kept cs (change c this) n_cs (change-is_valid c this n_c v) in
    let (tenant_c, trace_c) = change-ids c this in (v', tenant ∙ tenant_c, trace ∙ trace_c)

-- The constructors.
unfoldable pub created :
    (turbo_mode : Bool) (request_id tenant_id trace_id : String) (now : ℕ) → SovereignContext
unfolding new_turbo new_context
created true request_id tenant_id trace_id now = new_turbo request_id tenant_id trace_id now
created false request_id tenant_id trace_id now = new_context request_id tenant_id trace_id now

created-ids :
    (turbo_mode : Bool) (request_id tenant_id trace_id : String) (now : ℕ)
    → let first = created turbo_mode request_id tenant_id trace_id now in
      (first.tenant_id ≡ tenant_id) × (first.trace_id ≡ trace_id)
unfolding created
created-ids true r t tr now = (refl, refl)
created-ids false r t tr now = (refl, refl)

created-is_valid :
    (turbo_mode : Bool) (request_id tenant_id trace_id : String) (now : ℕ)
    → request_id ≢ ""
    → tenant_id ≢ ""
    → trace_id ≢ ""
    → is_valid (created turbo_mode request_id tenant_id trace_id now) ≡ true
unfolding created is_valid
created-is_valid true r t tr now nr nt ntr = ground (arith, eq_iff r "", eq_iff t "", eq_iff tr "")
created-is_valid false r t tr now nr nt ntr = ground (arith, eq_iff r "", eq_iff t "", eq_iff tr "")

-- The bytes of a context name a priority and a tier, and turbo mode has a tier with turbo.
abbrev pub Named : SovereignContext → Type 0
Named this =
    ((p : PriorityLevel) × (priority_level this ≡ some p) × (priority_as_u8 p ≡ this.priority))
    × ((t : TenantTier) × (tenant_tier this ≡ some t)
        × (as_u8 t ≡ this.tier)
        × (this.is_turbo_mode ≡ this.is_turbo_mode && uses_turbo_acceleration t))

priority_known :
    (n : ℕ) → n ≤ 5 → (p : PriorityLevel) × (priority_from_u8 n ≡ some p) × (priority_as_u8 p ≡ n)
unfolding priority_from_u8 priority_as_u8
priority_known zero le = (lowest, refl, refl)
priority_known (suc zero) le = (low, refl, refl)
priority_known (suc (suc zero)) le = (normal, refl, refl)
priority_known (suc (suc (suc zero))) le = (high, refl, refl)
priority_known (suc (suc (suc (suc zero)))) le = (critical, refl, refl)
priority_known (suc (suc (suc (suc (suc zero))))) le = (system_critical, refl, refl)
priority_known (suc (suc (suc (suc (suc (suc n)))))) le = absurd (omega arith)

tier_known : (n : ℕ) → n ≤ 4 → (t : TenantTier) × (from_u8 n ≡ some t) × (as_u8 t ≡ n)
unfolding from_u8 as_u8
tier_known zero le = (free, refl, refl)
tier_known (suc zero) le = (standard, refl, refl)
tier_known (suc (suc zero)) le = (turbo, refl, refl)
tier_known (suc (suc (suc zero))) le = (pro, refl, refl)
tier_known (suc (suc (suc (suc zero)))) le = (enterprise, refl, refl)
tier_known (suc (suc (suc (suc (suc n))))) le = absurd (omega arith)

is_valid-Named : (this : SovereignContext) → is_valid this ≡ true → Named this
unfolding is_valid priority_level tenant_tier
is_valid-Named this v =
    let (t, known, byte) = tier_known this.tier (ground arith) in
    (priority_known this.priority (ground arith), (t, known, byte, ground (arith, known)))

-- A context of non-empty ids, made for turbo or not, is still valid after any changes by its
-- builders and any children with non-empty request ids: its tenant and its trace are those it was
-- made with, its bytes are those of a priority and of a tier, and it is in turbo mode only on a
-- tier that has turbo.
pub change_all-is_valid :
    (turbo_mode : Bool) (request_id tenant_id trace_id : String) (now : ℕ) (cs : List Change)
    → request_id ≢ ""
    → tenant_id ≢ ""
    → trace_id ≢ ""
    → NamedChildren cs
    → let last = change_all cs (created turbo_mode request_id tenant_id trace_id now) in
      (is_valid last ≡ true)
      × (last.tenant_id ≡ tenant_id)
      × (last.trace_id ≡ trace_id)
      × Named last
change_all-is_valid turbo_mode request_id tenant_id trace_id now cs nr nt ntr n =
    let first = created turbo_mode request_id tenant_id trace_id now in
    let (v, tenant, trace) =
      change_all-Kept cs first n
        (created-is_valid turbo_mode request_id tenant_id trace_id now nr nt ntr) in
    let (made_tenant, made_trace) = created-ids turbo_mode request_id tenant_id trace_id now in
    (v, tenant ∙ made_tenant, trace ∙ made_trace, is_valid-Named _ v)
