-- ===== src/Scenarios/Timer.antt =====
-- Timers that are polled before and after their deadlines.
use laplace.Prelude.{
  ℕ, ◌≡◌, refl, true, false, Option, none, some, List, [], ◌∷◌, ◌++◌, if◌then◌else◌, arith,
}
use laplace.Timer.Clock.{Turn, register, duration_to_nanos_saturating}
use laplace.Timer.Sleep.{sleep, timeout}
use laplace.Timer.Interval.{unstarted}
use laplace.Timer.Waiting.{
  sleep_life, waiting_calls, passes, deadline_of, sleep_life-told, timeout_life, in_time,
  inner_passes, timeout_life-in_time,
}
use laplace.Timer.Ticking.{ticks, NotEarly, ticks-NotEarly, ticks-burst}

abbrev turn : ℕ → Turn
turn now = record {
  installed = true;
  timer = 4;
  start_nanos = now;
  now_nanos = now;
  inner_ready = false;
}

-- A poll after the hook was cleared.
abbrev cleared : ℕ → Turn
cleared now = record (turn now) { installed = false }

abbrev later : List Turn
later = cleared 104 ∷ turn 110 ∷ []

sleep_trace :
    sleep_life (turn 100 ∷ later) (sleep 10) [] ≡ (register 4 110 ∷ register 4 110 ∷ [], true)
unfolding sleep_life sleep
sleep_trace = refl

sleep_life-told_example : sleep_life (turn 100 ∷ later) (sleep 10) [] ≡ (
    if (turn 100).installed
    then (
      [] ++ waiting_calls 4 (deadline_of (turn 100) 10) (turn 100 ∷ later),
      passes (deadline_of (turn 100) 10) (turn 100 ∷ later),
    )
    else ([], inner_passes (turn 100 ∷ later)))
sleep_life-told_example = sleep_life-told 10 (turn 100) later []

abbrev answers : List (Option ℕ × Turn)
answers = (none, turn 100) ∷ (some 7, turn 110) ∷ []

-- The future is ready at the poll at which the deadline has come.
timeout_life-in_time_example :
    timeout_life answers (timeout 10) [] ≡ in_time (deadline_of (turn 100) 10) answers
timeout_life-in_time_example =
    timeout_life-in_time 10 none (turn 100) ((some 7, turn 110) ∷ []) [] refl

ticks-NotEarly_example :
    NotEarly 100 (duration_to_nanos_saturating 10) 115 (ticks (turn 100 ∷ later) (unstarted 10) [])
ticks-NotEarly_example =
    ticks-NotEarly 10 115 (turn 100) later [] refl (ground arith)
      (ground arith, (ground arith, (ground arith, tt)))

-- The first poll starts the interval at 100, and its clock has reached 120 by the end of it.
abbrev late : Turn
late = record (turn 100) { now_nanos = 120 }

ticks-burst_example : ticks (late ∷ turn 120 ∷ turn 125 ∷ []) (unstarted 10) [] ≡ 3
unfolding duration_to_nanos_saturating
ticks-burst_example =
    ticks-burst 10 late (turn 120 ∷ turn 125 ∷ []) [] refl
      (ground arith, (ground arith, (ground arith, tt)))
