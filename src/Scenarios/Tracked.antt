-- ===== src/Scenarios/Tracked.antt =====
-- Two threads that share a mutex and a reader-writer lock in a capture session.
use laplace.Prelude.{◌≡◌, refl, lookup, insert, some, List, [], ◌∷◌}
use laplace.Event.{lock_acquired, lock_released, rw_lock_read_acquired}
use laplace.Session.Sinks.{Process, fresh_process, local_sender, begin, finish, received}
use laplace.Tracked.Threads.{
  mutex, read_rw, write_rw, World, Step, asks, gets, reports, announces, frees, take_all,
}
use laplace.Tracked.Counting.{observe_all, seen}
use laplace.Tracked.Observed.{counted}
use laplace.Tracked.Captured.{finish-observe_all}

-- The second thread asks for the mutex, and gets it where the first one's wrapped guard is gone.
abbrev steps : List Step
steps =
    asks 10 mutex "m"
    ∷ asks 11 mutex "m"
    ∷ gets 0
    ∷ gets 1
    ∷ reports 10 0
    ∷ announces 10 0
    ∷ gets 1
    ∷ frees 0
    ∷ gets 1
    ∷ asks 10 read_rw "rw"
    ∷ gets 2
    ∷ reports 10 2
    ∷ reports 11 1
    ∷ asks 11 write_rw "rw"
    ∷ gets 3
    ∷ reports 11 3
    ∷ []

abbrev quiet_process : Process (Unit {0})
quiet_process = fresh_process

abbrev ran : World (Unit {0})
ran = take_all steps (record { holds = []; process = begin 5 quiet_process })

captured :
    (finish 5 ran.process).1
    ≡ lock_acquired 0 "m"
      ∷ lock_released 0 "m"
      ∷ rw_lock_read_acquired 0 "rw"
      ∷ lock_acquired 1 "m"
      ∷ []
unfolding take_all finish begin lookup insert
captured = refl

finish-observe_all_example :
    observe_all "m" (finish 5 ran.process).1 (0, 0) ≡ some (counted seen "m" ran.holds)
unfolding local_sender received lookup
finish-observe_all_example = finish-observe_all 5 quiet_process steps "m" (λ os. refl) refl refl
