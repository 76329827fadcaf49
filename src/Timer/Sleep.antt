-- ===== src/Timer/Sleep.antt =====
-- crates/laplace-model-rt/src/async_time.rs: `Sleep` and `Timeout`.
use laplace.Prelude.{
  ℕ, Bool, true, false, Option, none, some, List, [], ◌∷◌, ◌++◌, leb, if◌then◌else◌,
}
use laplace.Timer.Clock.{
  Turn, TimerCall, register, timer_dropped, saturating_add, duration_to_nanos_saturating,
}

-- The wrapped tokio timer and the captured hook are not part of the state: their answers are those
-- of the turn, and the calls on the hook are a log beside it.
pub data SleepState : Type 0 where
  unstarted : (duration : ℕ) → SleepState
  hooked : (timer deadline_nanos : ℕ) → SleepState
  unhooked : SleepState

pub record Sleep : Type 0 where
  pub state : SleepState
  pub resolved : Bool

unfoldable pub sleep : ℕ → Sleep
sleep duration = record { state = unstarted duration; resolved = false }

abbrev pub started : Turn → SleepState → SleepState
started t (unstarted duration) =
    if t.installed
    then hooked t.timer (saturating_add t.start_nanos (duration_to_nanos_saturating duration))
    else unhooked
started t (hooked timer deadline_nanos) = hooked timer deadline_nanos
started t unhooked = unhooked

-- `Sleep::start`.
unfoldable pub start : Turn → Sleep → Sleep
unfolding duration_to_nanos_saturating
start t this = record this { state = started t this.state }

-- `Sleep::poll`, with the log of the hook; whether it is ready is the last part of the result.
-- After `start` the state is never `unstarted`, where the source is `unreachable!`.
unfoldable pub poll_sleep : Turn → Sleep → List TimerCall → (Sleep × List TimerCall) × Bool
unfolding start
poll_sleep t this log =
    let this' = start t this in
    elim this'.state [
      | unstarted _ ↦ ((this', log), false)
      | hooked timer deadline_nanos ↦
          if leb deadline_nanos t.now_nanos
          then ((record this' { resolved = true }, log), true)
          else ((this', log ++ (register timer deadline_nanos ∷ [])), false)
      | unhooked ↦ (
        (record this' { resolved = if t.inner_ready then true else this'.resolved }, log),
        t.inner_ready,
      )
    ]

-- `Drop for Sleep`.
unfoldable pub drop_sleep : Sleep → List TimerCall → List TimerCall
drop_sleep this log = if this.resolved then log else elim this.state [
  | unstarted _ ↦ log
  | hooked timer _ ↦ log ++ (timer_dropped timer ∷ [])
  | unhooked ↦ log
]

-- `Timeout`, less the future that it wraps: what a poll of that gives is an argument.
pub record Timeout : Type 0 where
  pub delay : Sleep

unfoldable pub timeout : ℕ → Timeout
unfolding sleep
timeout duration = record { delay = sleep duration }

-- `Poll<Result<F::Output, Elapsed>>`.
pub data Timed {ℓ} (V : Type ℓ) : Type ℓ where
  waits : Timed V
  value : V → Timed V
  elapsed : Timed V

-- `Timeout::poll`.
unfoldable pub poll_timeout {ℓ} :
    {V : Type ℓ} → Option V → Turn → Timeout → List TimerCall → (Timeout × List TimerCall) × Timed V
unfolding poll_sleep
poll_timeout (some v) t this log = ((this, log), value v)
poll_timeout none t this log =
    let ((delay, log'), ready) = poll_sleep t this.delay log in
    ((record { delay = delay }, log'), if ready then elapsed else waits)
