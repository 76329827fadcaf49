-- ===== src/Timer/Ticking.antt =====
-- How often an interval ticks.
use laplace.Prelude.{
  u64_max, ℕ, zero, suc, ◌+◌, ◌≤◌, ◌<◌, ◌≡◌, inl, inr, refl, true, Bool-cases, List, [], ◌∷◌, leb,
  if◌then◌else◌, length, arith,
}
use laplace.Timer.Clock.{Turn, TimerCall, saturating_add, duration_to_nanos_saturating}
use laplace.Timer.Interval.{IntervalState, unstarted, hooked, poll_tick}

-- How many of the polls of an interval are ready.
unfoldable pub ticks : List Turn → IntervalState → List TimerCall → ℕ
unfolding poll_tick
ticks [] this log = 0
ticks (t ∷ ts) this log =
    let ((this', log'), ready) = poll_tick t this log in
    let rest = ticks ts this' log' in if ready then suc rest else rest

-- The time of the tick of a number, where the first one has the number 0.
abbrev pub tick_deadline : (first period : ℕ) → ℕ → ℕ
tick_deadline first period zero = first
tick_deadline first period (suc k) = tick_deadline (first + period) period k

-- Every turn reads the clock at a time or before it, or after it.
abbrev pub ReadsUpTo : ℕ → List Turn → Type 0
ReadsUpTo time [] = Unit {0}
ReadsUpTo time (t ∷ ts) = (t.now_nanos ≤ time) × ReadsUpTo time ts

abbrev pub ReadsFrom : ℕ → List Turn → Type 0
ReadsFrom time [] = Unit {0}
ReadsFrom time (t ∷ ts) = (time ≤ t.now_nanos) × ReadsFrom time ts

tick_deadline-first : (first period k : ℕ) → first ≤ tick_deadline first period k
tick_deadline-first first period zero = omega arith
tick_deadline-first first period (suc k) =
    omega (arith, tick_deadline-first (first + period) period k)

tick_deadline-le : (a b period k : ℕ) → a ≤ b → tick_deadline a period k ≤ tick_deadline b period k
tick_deadline-le a b period zero le = le
tick_deadline-le a b period (suc k) le =
    tick_deadline-le (a + period) (b + period) period k (omega arith)

ReadsFrom-le : (a b : ℕ) (ts : List Turn) → a ≤ b → ReadsFrom b ts → ReadsFrom a ts
ReadsFrom-le a b [] le r = tt
ReadsFrom-le a b (t ∷ ts) le (r, rs) = (omega arith, ReadsFrom-le a b ts le rs)

-- A count of ticks, the last of which is not before its time.
abbrev pub NotEarly : (first period bound n : ℕ) → Type 0
NotEarly first period bound zero = Unit {0}
NotEarly first period bound (suc k) = tick_deadline first period k ≤ bound

NotEarly-suc :
    (first period bound n : ℕ)
    → first ≤ bound
    → bound < u64_max
    → NotEarly (saturating_add first period) period bound n
    → NotEarly first period bound (suc n)
NotEarly-suc first period bound zero le lt k = le
NotEarly-suc first period bound (suc n) le lt k = elim (Bool-cases (leb (first + period) u64_max)) [
  | inl fits ↦ omega (
    arith,
    tick_deadline-le (first + period) (saturating_add first period) period n (ground arith),
  )
  | inr over ↦ absurd (ground (arith, tick_deadline-first (saturating_add first period) period n))
]

hooked-NotEarly :
    (ts : List Turn) (timer period first bound : ℕ) (log : List TimerCall)
    → bound < u64_max
    → ReadsUpTo bound ts
    → NotEarly first period bound (ticks ts (hooked timer period first) log)
unfolding ticks
hooked-NotEarly [] timer period first bound log lt r = tt
hooked-NotEarly (t ∷ ts) timer period first bound log lt (r, rs) =
    elim (Bool-cases (leb first t.now_nanos)) [
      | inl due ↦
          rw (due, ticks)
            (NotEarly-suc first period bound _ (ground arith) lt
              (hooked-NotEarly ts timer period (saturating_add first period) bound log lt rs))
      | inr early ↦ rw (early, ticks) (hooked-NotEarly ts timer period first bound _ lt rs)
    ]

hooked-burst :
    (ts : List Turn) (t : Turn) (timer period first : ℕ) (log : List TimerCall)
    → ReadsFrom (tick_deadline first period (length ts)) (t ∷ ts)
    → ticks (t ∷ ts) (hooked timer period first) log ≡ suc (length ts)
unfolding ticks
hooked-burst [] t timer period first log (r, rs) = ground arith
hooked-burst (u ∷ ts) t timer period first log (r, rs) = ground (
  arith,
  tick_deadline-first first period (suc (length ts)),
  hooked-burst ts u timer period (saturating_add first period) log (
      ReadsFrom-le _ _ (u ∷ ts)
        (tick_deadline-le (saturating_add first period) (first + period) period (length ts)
          (ground arith))
        rs),
)

ticks-started :
    (t : Turn) (ts : List Turn) (period : ℕ) (log : List TimerCall)
    → t.installed ≡ true
    → ticks (t ∷ ts) (unstarted period) log
      ≡ ticks (t ∷ ts) (hooked t.timer (duration_to_nanos_saturating period) t.start_nanos) log
unfolding ticks
ticks-started t ts period log there = rw (there, ticks) refl

-- An interval whose first poll finds a hook never ticks early: of its ticks, numbered from 0, the
-- one of number k comes when the clock has reached k periods after the first poll's reading, as long
-- as no poll reads the greatest 64-bit number.
pub ticks-NotEarly :
    (period bound : ℕ) (t : Turn) (ts : List Turn) (log : List TimerCall)
    → t.installed ≡ true
    → bound < u64_max
    → ReadsUpTo bound (t ∷ ts)
    → NotEarly t.start_nanos
        (duration_to_nanos_saturating period)
        bound
        (ticks (t ∷ ts) (unstarted period) log)
ticks-NotEarly period bound t ts log there lt r = rw (ticks-started t ts period log there) (
    hooked-NotEarly (t ∷ ts) t.timer (duration_to_nanos_saturating period) t.start_nanos bound log
      lt r)

-- An interval whose first poll finds a hook catches up in a burst: if its polls all come when the clock has reached as many periods
-- after the first poll's reading as there are polls after the first, each of them is a tick.
pub ticks-burst :
    (period : ℕ) (t : Turn) (ts : List Turn) (log : List TimerCall)
    → t.installed ≡ true
    → ReadsFrom
        (tick_deadline t.start_nanos (duration_to_nanos_saturating period) (length ts))
        (t ∷ ts)
    → ticks (t ∷ ts) (unstarted period) log ≡ length (t ∷ ts)
ticks-burst period t ts log there r =
    rw (ticks-started t ts period log there)
      (hooked-burst ts t t.timer (duration_to_nanos_saturating period) t.start_nanos log r)
