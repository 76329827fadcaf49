-- ===== src/Time/Scheduled.antt =====
-- crates/laplace-interfaces/src/domain/time/types.rs: a scheduled event and its comparisons.
--
-- An address and a core are their numbers.
use laplace.Prelude.{ℕ, String, Bool, ltb, ◌==◌, if◌then◌else◌, Option, some}

pub data EventPayload : Type 0 where
  test : ℕ → EventPayload
  memory_write_sync : (core addr value : ℕ) → EventPayload
  memory_fence : (core : ℕ) → EventPayload
  task_ready : (task_id : String) → EventPayload
  watchdog_timeout : (tenant_id : String) → EventPayload
  custom : String → EventPayload

pub record ScheduledEvent : Type 0 where
  pub scheduled_at_ns : ℕ
  pub lamport : ℕ
  pub event_id : ℕ
  pub payload : EventPayload

-- `std::cmp::Ordering`.
pub data Ordering : Type 0 where
  less equal greater : Ordering

-- `Ord::cmp` of the integers.
unfoldable pub compare : ℕ → ℕ → Ordering
compare a b = if ltb a b then less else if a == b then equal else greater

unfoldable pub eq : ScheduledEvent → ScheduledEvent → Bool
eq this other = this.event_id == other.event_id

unfoldable pub cmp : ScheduledEvent → ScheduledEvent → Ordering
cmp this other = elim (compare other.scheduled_at_ns this.scheduled_at_ns) [
  | equal ↦ elim (compare other.lamport this.lamport) [
    | equal ↦ compare other.event_id this.event_id
    | less ↦ less
    | greater ↦ greater
  ]
  | less ↦ less
  | greater ↦ greater
]

unfoldable pub partial_cmp : ScheduledEvent → ScheduledEvent → Option Ordering
unfolding cmp
partial_cmp this other = some (cmp this other)
