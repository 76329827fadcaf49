-- ===== src/Wire/Mock.antt =====
-- crates/laplace-probe-common/src/mock.rs: the generator of events for tests.
--
-- The variable `ts` that the source moves on after each event is the argument of `emit_from`, and a
-- script gives the events, each with what `ts` grows by after it. The additions of 64 bits wrap.
use laplace.Prelude.{ℕ, zero, suc, ◌+◌, ◌%◌, ◌^◌, List, [], ◌∷◌, ◌++◌}
use laplace.Wire.Raw.{ProbeEventType, RawProbeEvent, discriminant, zeroed}

abbrev pub mock_tid_a : ℕ
mock_tid_a = 1001

abbrev pub mock_tid_b : ℕ
mock_tid_b = 1002

-- `0xFFFF_DEAD_BEEF_0000`.
abbrev pub mock_lock_x : ℕ
mock_lock_x = 18446707436546883584

-- `0xFFFF_DEAD_BEEF_0008`.
abbrev pub mock_lock_y : ℕ
mock_lock_y = 18446707436546883592

abbrev pub base_clock_ns : ℕ
base_clock_ns = 1000000000

unfoldable pub make_thread_spawn : (child_tid parent_tid ts : ℕ) → RawProbeEvent
unfolding discriminant
make_thread_spawn child_tid parent_tid ts = record zeroed {
  event_type = discriminant ProbeEventType.thread_spawn;
  tid = child_tid;
  parent_tid = parent_tid;
  timestamp_ns = ts;
}

unfoldable pub make_lock_acquire : (tid mutex_addr latency_ns ts : ℕ) → RawProbeEvent
unfolding discriminant
make_lock_acquire tid mutex_addr latency_ns ts = record zeroed {
  event_type = discriminant ProbeEventType.lock_acquire;
  tid = tid;
  resource_id = mutex_addr;
  latency_ns = latency_ns;
  timestamp_ns = ts;
}

unfoldable pub make_lock_acquired : (tid mutex_addr contention_ns ts : ℕ) → RawProbeEvent
unfolding discriminant
make_lock_acquired tid mutex_addr contention_ns ts = record zeroed {
  event_type = discriminant ProbeEventType.lock_acquired;
  tid = tid;
  resource_id = mutex_addr;
  latency_ns = contention_ns;
  timestamp_ns = ts;
}

unfoldable pub make_lock_release : (tid mutex_addr ts : ℕ) → RawProbeEvent
unfolding discriminant
make_lock_release tid mutex_addr ts = record zeroed {
  event_type = discriminant ProbeEventType.lock_release;
  tid = tid;
  resource_id = mutex_addr;
  timestamp_ns = ts;
}

unfoldable pub make_lock_contention : (tid mutex_addr ts : ℕ) → RawProbeEvent
unfolding discriminant
make_lock_contention tid mutex_addr ts = record zeroed {
  event_type = discriminant ProbeEventType.lock_contention;
  tid = tid;
  resource_id = mutex_addr;
  timestamp_ns = ts;
}

unfoldable pub make_sched_switch : (prev_tid next_tid cpu_id ts : ℕ) → RawProbeEvent
unfolding discriminant
make_sched_switch prev_tid next_tid cpu_id ts = record zeroed {
  event_type = discriminant ProbeEventType.sched_switch;
  tid = prev_tid;
  parent_tid = next_tid;
  cpu_id = cpu_id;
  timestamp_ns = ts;
}

-- A call of one of the makers, before its time is known.
pub data Made : Type 0 where
  thread_spawn : (child_tid parent_tid : ℕ) → Made
  lock_acquire lock_acquired : (tid mutex_addr latency_ns : ℕ) → Made
  lock_release lock_contention : (tid mutex_addr : ℕ) → Made
  sched_switch : (prev_tid next_tid cpu_id : ℕ) → Made

unfoldable pub make : Made → (ts : ℕ) → RawProbeEvent
unfolding make_thread_spawn make_lock_acquire make_lock_acquired make_lock_release
    make_lock_contention make_sched_switch
make (thread_spawn child parent) ts = make_thread_spawn child parent ts
make (lock_acquire tid addr latency) ts = make_lock_acquire tid addr latency ts
make (lock_acquired tid addr latency) ts = make_lock_acquired tid addr latency ts
make (lock_release tid addr) ts = make_lock_release tid addr ts
make (lock_contention tid addr) ts = make_lock_contention tid addr ts
make (sched_switch prev next cpu) ts = make_sched_switch prev next cpu ts

unfoldable pub emit_from : (ts : ℕ) → List (Made × ℕ) → List RawProbeEvent
unfolding make
emit_from ts [] = []
emit_from ts ((m, advance) ∷ rest) = make m ts ∷ emit_from ((ts + advance) % 2 ^ 64) rest

-- The body of a loop, `n` times.
abbrev pub repeat : ℕ → List (Made × ℕ) → List (Made × ℕ)
repeat zero body = []
repeat (suc n) body = body ++ repeat n body

unfoldable pub starting_at : (seed : ℕ) → ℕ
starting_at seed = (base_clock_ns + seed % 1000000) % 2 ^ 64

abbrev pub clean_uncontested_script : List (Made × ℕ)
clean_uncontested_script =
    (thread_spawn mock_tid_a 0, 100)
    ∷ (lock_acquire mock_tid_a mock_lock_x 0, 100)
    ∷ (lock_acquired mock_tid_a mock_lock_x 0, 100)
    ∷ (lock_release mock_tid_a mock_lock_x, 0)
    ∷ []

unfoldable pub generate_clean_uncontested : (seed : ℕ) → List RawProbeEvent
unfolding emit_from starting_at
generate_clean_uncontested seed = emit_from (starting_at seed) clean_uncontested_script

abbrev pub ab_ba_deadlock_script : List (Made × ℕ)
ab_ba_deadlock_script =
    (thread_spawn mock_tid_a 0, 100)
    ∷ (thread_spawn mock_tid_b mock_tid_a, 100)
    ∷ (lock_acquire mock_tid_a mock_lock_x 0, 50)
    ∷ (lock_acquired mock_tid_a mock_lock_x 0, 50)
    ∷ (lock_acquire mock_tid_b mock_lock_y 0, 50)
    ∷ (lock_acquired mock_tid_b mock_lock_y 0, 50)
    ∷ (lock_acquire mock_tid_a mock_lock_y 0, 100)
    ∷ (lock_contention mock_tid_a mock_lock_y, 100)
    ∷ (lock_acquire mock_tid_b mock_lock_x 0, 100)
    ∷ (lock_contention mock_tid_b mock_lock_x, 100)
    ∷ (sched_switch mock_tid_a mock_tid_b 0, 100)
    ∷ (sched_switch mock_tid_b mock_tid_a 0, 0)
    ∷ []

unfoldable pub generate_ab_ba_deadlock : (seed : ℕ) → List RawProbeEvent
unfolding emit_from starting_at
generate_ab_ba_deadlock seed = emit_from (starting_at seed) ab_ba_deadlock_script

abbrev pub data_race_script : List (Made × ℕ)
data_race_script =
    (thread_spawn mock_tid_a 0, 100)
    ∷ (thread_spawn mock_tid_b mock_tid_a, 100)
    ∷ (lock_acquire mock_tid_a mock_lock_x 0, 50)
    ∷ (lock_acquired mock_tid_a mock_lock_x 0, 50)
    ∷ (lock_acquire mock_tid_b mock_lock_x 0, 100)
    ∷ (lock_contention mock_tid_b mock_lock_x, 100)
    ∷ (lock_acquire mock_tid_a mock_lock_x 0, 100)
    ∷ (lock_contention mock_tid_a mock_lock_x, 100)
    ∷ (sched_switch mock_tid_a mock_tid_b 0, 100)
    ∷ (sched_switch mock_tid_b mock_tid_a 0, 0)
    ∷ []

unfoldable pub generate_data_race : (seed : ℕ) → List RawProbeEvent
unfolding emit_from starting_at
generate_data_race seed = emit_from (starting_at seed) data_race_script

abbrev pub livelock_cycle : List (Made × ℕ)
livelock_cycle =
    (lock_release mock_tid_a mock_lock_x, 50)
    ∷ (lock_acquire mock_tid_a mock_lock_x 0, 50)
    ∷ (lock_acquired mock_tid_a mock_lock_x 0, 50)
    ∷ (lock_contention mock_tid_b mock_lock_x, 50)
    ∷ []

abbrev pub livelock_starvation_script : List (Made × ℕ)
livelock_starvation_script =
    (thread_spawn mock_tid_a 0, 100)
    ∷ (thread_spawn mock_tid_b mock_tid_a, 100)
    ∷ (lock_acquire mock_tid_a mock_lock_x 0, 50)
    ∷ (lock_acquired mock_tid_a mock_lock_x 0, 50)
    ∷ (lock_acquire mock_tid_b mock_lock_x 0, 50)
    ∷ (lock_contention mock_tid_b mock_lock_x, 50)
    ∷ repeat 12 livelock_cycle

unfoldable pub generate_livelock_starvation : (seed : ℕ) → List RawProbeEvent
unfolding emit_from starting_at
generate_livelock_starvation seed = emit_from (starting_at seed) livelock_starvation_script
