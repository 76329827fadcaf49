-- ===== src/Kraken/Active.antt =====
-- What the three queries of a chaos schedule have in common.
use laplace.Prelude.{
  ℕ, ◌≤◌, ◌<◌, ◌+◌, ◌≡◌, ◌⊎◌, ◌↔◌, inl, inr, refl, Bool, true, false, ◌||◌, leb, if◌then◌else◌,
  none, some, List, [], ◌∷◌, Elem, Bool-cases, u64_max, arith, sym, subst,
}
use laplace.Kraken.Chaos.{
  ChaosEvent, latency_spike, network_partition, is_partition, ChaosSchedule, add_event, applies,
  get_active_events, is_partitioned, extra_latency, checked_sum, extra_latencies,
  total_extra_latency_ms,
}

-- The event is on at that time, and concerns that virtual user.
abbrev pub Hits : (now vu_id : ℕ) → ChaosEvent → Type 0
Hits now vu_id (latency_spike s e extra) = (s ≤ now) × (now < e)
Hits now vu_id (network_partition s e first last) =
    (s ≤ now) × (now < e) × (first ≤ vu_id) × (vu_id < last)

applies_iff : (now vu_id : ℕ) (ev : ChaosEvent) → (applies now vu_id ev ≡ true) ↔ Hits now vu_id ev
unfolding applies
applies_iff now vu_id (latency_spike s e extra) = ground arith
applies_iff now vu_id (network_partition s e first last) = ground arith

Elem-add_event :
    (added : ChaosEvent) (events : ChaosSchedule) (ev : ChaosEvent)
    → Elem ev (add_event added events) ↔ ((ev ≡ added) ⊎ Elem ev events)
unfolding add_event
Elem-add_event added [] ev = ground arith
Elem-add_event added (first ∷ events) ev = ground (arith, Elem-add_event added events ev)

-- The events of a schedule that partition, and how much latency its spikes add in all.
unfoldable pub has_partition : List ChaosEvent → Bool
has_partition [] = false
has_partition (ev ∷ events) = is_partition ev || has_partition events

abbrev spike_of : ChaosEvent → ℕ
spike_of (latency_spike _ _ extra) = extra
spike_of (network_partition _ _ _ _) = 0

unfoldable pub spikes : List ChaosEvent → ℕ
spikes [] = 0
spikes (ev ∷ events) = spike_of ev + spikes events

Elem-get_active_events :
    (now vu_id : ℕ) (events : ChaosSchedule) (ev : ChaosEvent)
    → Elem ev (get_active_events now vu_id events) ↔ (Elem ev events × Hits now vu_id ev)
unfolding get_active_events
Elem-get_active_events now vu_id [] ev = ground arith
Elem-get_active_events now vu_id (first ∷ events) ev =
    let (found, finds) = Elem-get_active_events now vu_id events ev in
    let (meant, meets) = applies_iff now vu_id first in
    elim (Bool-cases (applies now vu_id first)) [
      | inl y ↦ rw y (
          (
            elim [
              | inl same ↦ (inl same, subst (Hits now vu_id) (sym same) (meant y))
              | inr later ↦ let (here, hits) = found later in (inr here, hits)
            ],
            λ (place, hits). elim place [
              | inl same ↦ inl same
              | inr here ↦ inr (finds (here, hits))
            ],
          ))
      | inr n ↦ rw n (
          (
            λ later. let (here, hits) = found later in (inr here, hits),
            λ (place, hits). elim place [
              | inl same ↦
                  let applied = meets (subst (Hits now vu_id) same hits) in absurd (ground arith)
              | inr here ↦ finds (here, hits)
            ],
          ))
    ]

is_partitioned-has_partition :
    (now vu_id : ℕ) (events : ChaosSchedule)
    → is_partitioned now vu_id events ≡ has_partition (get_active_events now vu_id events)
unfolding is_partitioned get_active_events has_partition applies
is_partitioned-has_partition now vu_id [] = refl
is_partitioned-has_partition now vu_id (ev ∷ events) =
    ground (arith, is_partitioned-has_partition now vu_id events)

checked_sum_lem :
    (now vu_id : ℕ) (events : ChaosSchedule) (total : ℕ)
    → total ≤ u64_max
    → checked_sum total (extra_latencies now events) ≡ (
        let n = total + spikes (get_active_events now vu_id events) in
        if leb n u64_max then some n else none)
unfolding checked_sum extra_latencies get_active_events spikes
checked_sum_lem now vu_id [] total le = ground arith
checked_sum_lem now vu_id (latency_spike s e extra ∷ events) total le = ground (
  arith,
  applies,
  extra_latency,
  checked_sum_lem now vu_id events total,
  checked_sum_lem now vu_id events (total + extra),
)
checked_sum_lem now vu_id (network_partition s e a b ∷ events) total le =
    ground (arith, applies, extra_latency, checked_sum_lem now vu_id events total)

-- The events that the schedule gives for a time and a virtual user are those of its events that are
-- on at that time and concern that user, a spike concerning everyone; the user is partitioned just
-- if a partition is among these, and the added latency is the sum of the spikes among them, where
-- it fits in 64 bits (else a program that is built with overflow checks panics). This holds of one
-- event more too.
pub get_active_events_lem :
    (events : ChaosSchedule) (added : ChaosEvent) (now vu_id : ℕ) (ev : ChaosEvent)
    → let all = add_event added events in
      let active = get_active_events now vu_id all in
      (Elem ev active ↔ (((ev ≡ added) ⊎ Elem ev events) × Hits now vu_id ev))
      × (is_partitioned now vu_id all ≡ has_partition active)
      × (total_extra_latency_ms now all
          ≡ (if leb (spikes active) u64_max then some (spikes active) else none))
unfolding total_extra_latency_ms
get_active_events_lem events added now vu_id ev =
    let all = add_event added events in
    let (found, finds) = Elem-get_active_events now vu_id all ev in
    let (split, join) = Elem-add_event added events ev in
    (
      (
        λ later. let (here, hits) = found later in (split here, hits),
        λ (place, hits). finds (join place, hits),
      ),
      is_partitioned-has_partition now vu_id all,
      ground (arith, checked_sum_lem now vu_id all 0),
    )
