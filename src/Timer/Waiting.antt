-- ===== src/Timer/Waiting.antt =====
-- When a sleep and a timeout come to their end.
use laplace.Prelude.{
  ℕ, ◌≡◌, refl, ap, Bool, true, false, ◌||◌, Bool-cases, inl, inr, Option, none, some, List, [],
  ◌∷◌, ◌++◌, leb, if◌then◌else◌, arith,
}
use mathlib.Core.List.{append-nil, append_assoc}
use laplace.Timer.Clock.{
  Turn, TimerCall, register, timer_dropped, saturating_add, duration_to_nanos_saturating,
}
use laplace.Timer.Sleep.{
  SleepState, unstarted, hooked, unhooked, Sleep, sleep, start, started, poll_sleep, drop_sleep,
  Timed, waits, value, elapsed, Timeout, timeout, poll_timeout,
}

-- A sleep is polled until it is ready, or once for each turn, and then dropped: the hook's log, and
-- whether it was ready.
unfoldable pub sleep_life : List Turn → Sleep → List TimerCall → List TimerCall × Bool
unfolding poll_sleep drop_sleep
sleep_life [] this log = (drop_sleep this log, false)
sleep_life (t ∷ ts) this log =
    let ((this', log'), ready) = poll_sleep t this log in
    let rest = sleep_life ts this' log' in if ready then (drop_sleep this' log', true) else rest

-- Some turn reads the clock at the deadline or after it.
abbrev pub passes : ℕ → List Turn → Bool
passes deadline [] = false
passes deadline (t ∷ ts) = leb deadline t.now_nanos || passes deadline ts

-- A timer registers its deadline at each turn before it, and if that never comes it is dropped.
abbrev pub waiting_calls : (timer deadline : ℕ) → List Turn → List TimerCall
waiting_calls timer deadline [] = timer_dropped timer ∷ []
waiting_calls timer deadline (t ∷ ts) =
    if leb deadline t.now_nanos
    then []
    else register timer deadline ∷ waiting_calls timer deadline ts

-- The time at which a sleep that is started at a turn ends.
abbrev pub deadline_of : Turn → ℕ → ℕ
deadline_of t duration = saturating_add t.start_nanos (duration_to_nanos_saturating duration)

abbrev pending_sleep : SleepState → Sleep
pending_sleep state = record { state = state; resolved = false }

hooked-sleep_life :
    (ts : List Turn) (timer deadline : ℕ) (log : List TimerCall)
    → sleep_life ts (pending_sleep (hooked timer deadline)) log
      ≡ (log ++ waiting_calls timer deadline ts, passes deadline ts)
unfolding sleep_life
hooked-sleep_life [] timer deadline log = refl
hooked-sleep_life (t ∷ ts) timer deadline log = elim (Bool-cases (leb deadline t.now_nanos)) [
  | inl over ↦ rw (over, append-nil) refl
  | inr early ↦ ground (
    arith,
    hooked-sleep_life ts timer deadline (log ++ (register timer deadline ∷ [])),
    append_assoc log (register timer deadline ∷ []) (waiting_calls timer deadline ts),
  )
]

-- The tokio timer is ready at some turn.
abbrev pub inner_passes : List Turn → Bool
inner_passes [] = false
inner_passes (t ∷ ts) = t.inner_ready || inner_passes ts

unhooked-sleep_life :
    (ts : List Turn) (log : List TimerCall)
    → sleep_life ts (pending_sleep unhooked) log ≡ (log, inner_passes ts)
unfolding sleep_life
unhooked-sleep_life [] log = refl
unhooked-sleep_life (t ∷ ts) log = elim (Bool-cases t.inner_ready) [
  | inl over ↦ rw over refl
  | inr early ↦ rw early (unhooked-sleep_life ts log)
]

started-started : (t : Turn) (state : SleepState) → started t (started t state) ≡ started t state
started-started t (unstarted duration) = ground arith
started-started t (hooked timer deadline) = refl
started-started t unhooked = refl

-- The first poll is that of the sleep in the state that it starts.
poll_sleep-started :
    (t : Turn) (this : Sleep) (log : List TimerCall)
    → poll_sleep t this log ≡ poll_sleep t (record this { state = started t this.state }) log
unfolding poll_sleep start duration_to_nanos_saturating
poll_sleep-started t this log = ground (arith, started-started t this.state)

sleep_life-started :
    (t : Turn) (ts : List Turn) (this : Sleep) (log : List TimerCall)
    → sleep_life (t ∷ ts) this log
      ≡ sleep_life (t ∷ ts) (record this { state = started t this.state }) log
unfolding sleep_life
sleep_life-started t ts this log =
    ap
      (λ (r : (Sleep × List TimerCall) × Bool).
        if r.1 then (drop_sleep r.0.0 r.0.1, true) else sleep_life ts r.0.0 r.0.1)
      (poll_sleep-started t this log)

-- A sleep whose first poll finds a hook ends at the first turn whose clock has reached its duration
-- after the first poll's (cut to 64 bits), whatever is installed later; it registers that one
-- deadline at each turn before, and tells the hook that it was dropped just if it did not end. One
-- whose first poll finds no hook follows the tokio timer and tells nothing.
pub sleep_life-told :
    (duration : ℕ) (t : Turn) (ts : List Turn) (log : List TimerCall)
    → sleep_life (t ∷ ts) (sleep duration) log ≡ (
        if t.installed
        then (
          log ++ waiting_calls t.timer (deadline_of t duration) (t ∷ ts),
          passes (deadline_of t duration) (t ∷ ts),
        )
        else (log, inner_passes (t ∷ ts)))
unfolding sleep_life sleep
sleep_life-told duration t ts log = elim (Bool-cases t.installed) [
  | inl there ↦ ground (
    arith,
    sleep_life-started t ts (sleep duration) log,
    hooked-sleep_life (t ∷ ts) t.timer (deadline_of t duration) log,
  )
  | inr absent ↦
      ground (arith, sleep_life-started t ts (sleep duration) log, unhooked-sleep_life (t ∷ ts) log)
]

module _ {ℓ} {V : Type ℓ} where
  -- What a timeout gives when it is polled until it is ready, or once for each turn. Each poll has
  -- what the wrapped future would give.
  unfoldable pub timeout_life : List (Option V × Turn) → Timeout → List TimerCall → Timed V
  unfolding poll_timeout
  timeout_life [] this log = waits
  timeout_life ((f, t) ∷ rest) this log =
      let ((this', log'), out) = poll_timeout f t this log in
      let later = timeout_life rest this' log' in
      elim out [ waits ↦ later | value v ↦ value v | elapsed ↦ elapsed ]

  -- The value of the first poll at which the future is ready, unless the deadline has come at a poll
  -- before that one.
  abbrev pub in_time : ℕ → List (Option V × Turn) → Timed V
  in_time deadline [] = waits
  in_time deadline ((some v, t) ∷ rest) = value v
  in_time deadline ((none, t) ∷ rest) =
      if leb deadline t.now_nanos then elapsed else in_time deadline rest

  hooked-timeout_life :
      (ps : List (Option V × Turn)) (timer deadline : ℕ) (log : List TimerCall)
      → timeout_life ps (record { delay = pending_sleep (hooked timer deadline) }) log
        ≡ in_time deadline ps
  unfolding timeout_life poll_sleep start
  hooked-timeout_life [] timer deadline log = refl
  hooked-timeout_life ((some v, t) ∷ rest) timer deadline log = refl
  hooked-timeout_life ((none, t) ∷ rest) timer deadline log =
      ground
        (arith, hooked-timeout_life rest timer deadline (log ++ (register timer deadline ∷ [])))

  -- A timeout whose first poll finds a hook gives the value of its future at the first poll at which
  -- the future is ready, even if the deadline (the duration after the first poll's clock, cut to 64
  -- bits) has come by then, and that it elapsed if a poll before had the clock at the deadline.
  pub timeout_life-in_time :
      (duration : ℕ) (f : Option V) (t : Turn) (rest : List (Option V × Turn))
      (log : List TimerCall)
      → t.installed ≡ true
      → timeout_life ((f, t) ∷ rest) (timeout duration) log
        ≡ in_time (deadline_of t duration) ((f, t) ∷ rest)
  unfolding timeout_life timeout sleep
  timeout_life-in_time duration (some v) t rest log there = refl
  timeout_life-in_time duration none t rest log there = ground (
    arith,
    poll_sleep-started t (sleep duration) log,
    hooked-timeout_life ((none, t) ∷ rest) t.timer (deadline_of t duration) log,
  )
