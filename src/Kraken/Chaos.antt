-- ===== src/Kraken/Chaos.antt =====
-- crates/laplace-interfaces/src/domain/kraken/types.rs: chaos events and their schedule.
use laplace.Prelude.{
  ℕ, ◌+◌, Bool, true, false, ◌&&◌, ◌||◌, leb, ltb, if◌then◌else◌, Option, none, some, List, [], ◌∷◌,
  ◌++◌, length, u64_max,
}

pub data ChaosEvent : Type 0 where
  latency_spike : (start_ms end_ms extra_latency_ms : ℕ) → ChaosEvent
  network_partition : (start_ms end_ms range_start range_end : ℕ) → ChaosEvent

unfoldable pub is_active_at_ms : ChaosEvent → (current_time_ms : ℕ) → Bool
is_active_at_ms (latency_spike start_ms end_ms _) now = leb start_ms now && ltb now end_ms
is_active_at_ms (network_partition start_ms end_ms _ _) now = leb start_ms now && ltb now end_ms

unfoldable pub affects_vu_id : ChaosEvent → (vu_id : ℕ) → Bool
affects_vu_id (latency_spike _ _ _) vu_id = false
affects_vu_id (network_partition _ _ range_start range_end) vu_id =
    leb range_start vu_id && ltb vu_id range_end

abbrev pub is_partition : ChaosEvent → Bool
is_partition (latency_spike _ _ _) = false
is_partition (network_partition _ _ _ _) = true

-- The events of a `ChaosSchedule`.
abbrev pub ChaosSchedule : Type 0
ChaosSchedule = List ChaosEvent

unfoldable pub add_event : ChaosEvent → ChaosSchedule → ChaosSchedule
add_event event events = events ++ (event ∷ [])

-- The filter's closure.
unfoldable pub applies : (now vu_id : ℕ) → ChaosEvent → Bool
unfolding is_active_at_ms affects_vu_id
applies now vu_id ev =
    is_active_at_ms ev now && (if is_partition ev then affects_vu_id ev vu_id else true)

unfoldable pub get_active_events : (now vu_id : ℕ) → ChaosSchedule → List ChaosEvent
unfolding applies
get_active_events now vu_id [] = []
get_active_events now vu_id (ev ∷ events) =
    let rest = get_active_events now vu_id events in
    if applies now vu_id ev then ev ∷ rest else rest

unfoldable pub is_partitioned : (now vu_id : ℕ) → ChaosSchedule → Bool
unfolding is_active_at_ms affects_vu_id
is_partitioned now vu_id [] = false
is_partitioned now vu_id (ev ∷ events) =
    (is_partition ev && (is_active_at_ms ev now && affects_vu_id ev vu_id))
    || is_partitioned now vu_id events

-- The closure of `filter_map`.
unfoldable pub extra_latency : (now : ℕ) → ChaosEvent → Option ℕ
unfolding is_active_at_ms
extra_latency now (latency_spike s e extra) =
    if is_active_at_ms (latency_spike s e extra) now then some extra else none
extra_latency now (network_partition _ _ _ _) = none

-- `sum`, from the first element on, as a program with overflow checks does it: `none` is the panic.
unfoldable pub checked_sum : (total : ℕ) → List ℕ → Option ℕ
checked_sum total [] = some total
checked_sum total (n ∷ ns) = if leb (total + n) u64_max then checked_sum (total + n) ns else none

unfoldable pub extra_latencies : (now : ℕ) → ChaosSchedule → List ℕ
unfolding extra_latency
extra_latencies now [] = []
extra_latencies now (ev ∷ events) = elim (extra_latency now ev) [
  | some extra ↦ extra ∷ extra_latencies now events
  | none ↦ extra_latencies now events
]

unfoldable pub total_extra_latency_ms : (now : ℕ) → ChaosSchedule → Option ℕ
unfolding checked_sum extra_latencies
total_extra_latency_ms now events = checked_sum 0 (extra_latencies now events)

unfoldable pub event_count : ChaosSchedule → ℕ
event_count events = length events
