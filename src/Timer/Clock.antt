-- ===== src/Timer/Clock.antt =====
-- What the timers of crates/laplace-model-rt/src/async_time.rs ask of their surroundings.
use laplace.Prelude.{u64_max, ℕ, ◌+◌, min, Bool}

-- The answers that one poll of a timer gets: whether a hook is installed, the id that
-- `next_async_lock_waiter_id` would give, the two readings of the hook's clock (the first is only
-- taken by the poll that starts the timer) and whether the wrapped tokio timer would be ready.
pub record Turn : Type 0 where
  pub installed : Bool
  pub timer : ℕ
  pub start_nanos : ℕ
  pub now_nanos : ℕ
  pub inner_ready : Bool

-- The calls on the hook that a timer captured.
pub data TimerCall : Type 0 where
  register : (timer deadline_nanos : ℕ) → TimerCall
  timer_dropped : (timer : ℕ) → TimerCall

-- `saturating_add` on 64 bits.
abbrev pub saturating_add : ℕ → ℕ → ℕ
saturating_add a b = min (a + b) u64_max

-- A `Duration` is its nanoseconds.
unfoldable pub duration_to_nanos_saturating : ℕ → ℕ
duration_to_nanos_saturating duration = min duration u64_max
