-- ===== src/Scenarios/Interfaces.antt =====
-- Tenants, contexts, scheduled events, scenarios and chaos at small inputs.
use laplace.Prelude.{
  not, ◌&&◌, ◌⊎◌, ℕ, ◌-◌, ◌+◌, ◌≤◌, ◌≡◌, ◌↔◌, refl, true, leb, ltb, eq_iff, if◌then◌else◌, none,
  some, List, [], ◌∷◌, Elem, u64_max, arith,
}
use laplace.Errors.Codes.{pool_exhausted, internal, code, from_code, is_retryable}
use laplace.Errors.TenantErrors.{turbo_pool_exhausted, to_proto_code, is_recoverable}
use laplace.Errors.Arriving.{misread, from_code_lem}
use laplace.Tenant.Tiers.{TenantTier, free, standard, turbo, enterprise}
use laplace.Tenant.Metadata.{TenantMetadata, new_tenant, for_tier}
use laplace.Tenant.Upgrades.{upgrade_all, upgrade_all_bounds, Consistent, Within, rank}
use laplace.Context.Request.{is_valid}
use laplace.Context.Validity.{
  Change, prioritised, tiered, slotted, spawned, created, change_all, Named, change_all-is_valid,
}
use laplace.Time.Scheduled.{ScheduledEvent, test, greater, less, compare, cmp}
use laplace.Kraken.Chaos.{
  ChaosEvent, latency_spike, network_partition, add_event, get_active_events, is_partitioned,
  total_extra_latency_ms,
}
use laplace.Kraken.Active.{Hits, has_partition, spikes, get_active_events_lem}
use laplace.Kraken.Scenario.{
  Float, ScenarioStep, think, uniform, branch, loop, retry_on_error, err, no_retries, step,
  new_scenario,
}
use laplace.Kraken.Validated.{NewLem, new_scenario_lem}

abbrev requested : List TenantTier
requested = turbo ∷ standard ∷ enterprise ∷ enterprise ∷ []

abbrev small_tenant : TenantMetadata
small_tenant = new_tenant "acme" free 7

upgraded :
    ((upgrade_all requested small_tenant).1 ≡ 2)
    × ((upgrade_all requested small_tenant).0.tier ≡ enterprise)
unfolding upgrade_all new_tenant
upgraded = (refl, refl)

upgrade_all_bounds_example :
    let (last, n) = upgrade_all requested small_tenant in
    (rank free + n ≤ rank last.tier)
    × (n ≤ 4)
    × Consistent last
    × Within (for_tier free) last.resource_config
upgrade_all_bounds_example = upgrade_all_bounds "acme" free 7 requested

abbrev changes : List Change
changes = prioritised 9 ∷ tiered free ∷ slotted 3 ∷ spawned "r2" 20 ∷ []

change_all-is_valid_example :
    let last = change_all changes (created true "r1" "acme" "t1" 10) in
    (is_valid last ≡ true) × (last.tenant_id ≡ "acme") × (last.trace_id ≡ "t1") × Named last
change_all-is_valid_example =
    change_all-is_valid true "r1" "acme" "t1" 10 changes (ground (arith, eq_iff "r1" ""))
      (ground (arith, eq_iff "acme" "")) (ground (arith, eq_iff "t1" ""))
      (ground (arith, eq_iff "r2" ""), tt)

abbrev early : ScheduledEvent
early = record { scheduled_at_ns = 5; lamport = 3; event_id = 9; payload = test 0 }

abbrev late : ScheduledEvent
late = record { scheduled_at_ns = 5; lamport = 4; event_id = 2; payload = test 1 }

compared : (cmp early late ≡ greater) × (cmp late early ≡ less)
unfolding cmp compare
compared = (refl, refl)

abbrev spike : ChaosEvent
spike = latency_spike 10 20 50

abbrev outage : ChaosEvent
outage = network_partition 15 30 0 3

chaos :
    (total_extra_latency_ms 16 (add_event outage (spike ∷ spike ∷ [])) ≡ some 100)
    × (is_partitioned 16 2 (add_event outage (spike ∷ spike ∷ [])) ≡ true)
unfolding total_extra_latency_ms is_partitioned add_event
chaos = (refl, refl)

get_active_events_lem_example :
    let all = add_event outage (spike ∷ []) in
    let active = get_active_events 16 2 all in
    (Elem spike active ↔ (((spike ≡ outage) ⊎ Elem spike (spike ∷ [])) × Hits 16 2 spike))
    × (is_partitioned 16 2 all ≡ has_partition active)
    × (total_extra_latency_ms 16 all
        ≡ (if leb (spikes active) u64_max then some (spikes active) else none))
get_active_events_lem_example = get_active_events_lem (spike ∷ []) outage 16 2 spike

abbrev total : List ℕ → ℕ
total [] = 0
total (n ∷ ns) = n + total ns

-- Thousandths, as natural numbers.
abbrev thousandths : Float ℕ
thousandths = record {
  zero_float = 0;
  one_float = 1000;
  tolerance = 1;
  less_than = ltb;
  less_or_equal = leb;
  minus = λ a b. a - b;
  absolute = λ a. a;
  sum = total;
}

abbrev script : List (ScenarioStep ℕ)
script = think (uniform 5 9) ∷ branch ((400, 0) ∷ (600, 2) ∷ []) ∷ retry_on_error 0 ∷ loop 0 0 ∷ []

refused : new_scenario thousandths "s" script ≡ err (step 2 no_retries)
unfolding new_scenario
refused = refl

new_scenario_lem_example : NewLem thousandths "s" script (new_scenario thousandths "s" script)
new_scenario_lem_example = new_scenario_lem thousandths "s" script

-- An exhausted pool of turbo slots may be tried again, and its code says that it may not.
from_code_lem_example :
    (from_code (code pool_exhausted) ≡ pool_exhausted)
    × ((code (from_code 4242) ≡ 4242) ⊎ (from_code 4242 ≡ internal))
    × (is_retryable (from_code (to_proto_code (turbo_pool_exhausted "acme" 0 1))) ≡ (
        if misread (turbo_pool_exhausted "acme" 0 1)
        then not (is_recoverable (turbo_pool_exhausted "acme" 0 1))
        else is_recoverable (turbo_pool_exhausted "acme" 0 1)))
    × ((leb 4096 (code pool_exhausted) && leb (code pool_exhausted) 8191)
        ≡ leb 5000 (code pool_exhausted))
from_code_lem_example = from_code_lem pool_exhausted 4242 (turbo_pool_exhausted "acme" 0 1)
