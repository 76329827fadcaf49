-- ===== src/Timer/Interval.antt =====
-- crates/laplace-model-rt/src/async_time.rs: `Interval`.
use laplace.Prelude.{
  ℕ, Bool, true, false, Option, none, some, List, [], ◌∷◌, ◌++◌, ltb, leb, if◌then◌else◌,
}
use laplace.Timer.Clock.{Turn, TimerCall, register, saturating_add, duration_to_nanos_saturating}

pub data IntervalState : Type 0 where
  unstarted : (period : ℕ) → IntervalState
  hooked : (timer period_nanos next_deadline_nanos : ℕ) → IntervalState
  unhooked : IntervalState

-- `interval`, where `none` is a failed assertion.
unfoldable pub interval : ℕ → Option IntervalState
interval period = if ltb 0 period then some (unstarted period) else none

-- The first part of `poll_tick`.
unfoldable pub begin_ticking : Turn → IntervalState → IntervalState
unfolding duration_to_nanos_saturating
begin_ticking t (unstarted period) =
    if t.installed
    then hooked t.timer (duration_to_nanos_saturating period) t.start_nanos
    else unhooked
begin_ticking t (hooked timer period_nanos next_deadline_nanos) =
    hooked timer period_nanos next_deadline_nanos
begin_ticking t unhooked = unhooked

-- `Interval::poll_tick`; whether a tick is ready is the last part of the result.
unfoldable pub poll_tick :
    Turn → IntervalState → List TimerCall → (IntervalState × List TimerCall) × Bool
unfolding begin_ticking
poll_tick t this log = elim (begin_ticking t this) [
  | unstarted period ↦ ((unstarted period, log), false)
  | hooked timer period_nanos next_deadline_nanos ↦
      if leb next_deadline_nanos t.now_nanos
      then (
        (hooked timer period_nanos (saturating_add next_deadline_nanos period_nanos), log),
        true,
      )
      else (
        (
          hooked timer period_nanos next_deadline_nanos,
          log ++ (register timer next_deadline_nanos ∷ []),
        ),
        false,
      )
  | unhooked ↦ ((unhooked, log), t.inner_ready)
]
