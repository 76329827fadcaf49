-- ===== src/Scenarios/TaskSet.antt =====
-- A task of a set and its handle.
use laplace.Prelude.{
  ℕ, ◌≤◌, ◌<◌, ◌≡◌, ◌≢◌, ◌⊎◌, inl, refl, suc, length, Bool, true, false, ◌==◌, some, none, List, [],
  ◌∷◌, ◌++◌, lookup, arith,
}
use laplace.TaskSet.Tasks.{
  TaskPollOutcome, TaskCall, pending, ready, panicked, not_ready, is_ready, World, TaskHandle,
  poll_handle, ObservedTask, poll_task, spawn, state_of, call, join_requested, poll_started,
}
use laplace.TaskSet.Polling.{Polled, poll_all, expected, poll_all-observer}
use laplace.TaskSet.Running.{Runs, stays, joins, polls}
use laplace.TaskSet.Spawning.{spawn_lem, Numbered}
use laplace.TaskSet.Joining.{poll_handle-woken}

abbrev world : World
world = record { completions = []; observer = some []; woken = [] }

abbrev task : ObservedTask
task = record { task = 3; completion = some 3; attempt = 0; finished = false }

abbrev handle : TaskHandle
handle = record { task = 3; requested = false; resolved = false }

joining-says :
    (w : World) (log : List TaskCall)
    → w.observer ≡ some log
    → (call (join_requested 5) w).observer ≡ some (log ++ (join_requested 5 ∷ []))
unfolding call
joining-says w log h = ground arith

-- A poll that joins another task, and ends as it is said to.
abbrev joining : TaskPollOutcome → Polled
joining out = record {
  run = λ w. (call (join_requested 5) w, out);
  said = join_requested 5 ∷ [];
  outcome = out;
  says = joining-says;
  ends = λ w. refl;
}

abbrev polled : List Polled
polled = joining pending ∷ joining panicked ∷ joining ready ∷ []

poll_all-observer_example : (poll_all polled task world).0.observer ≡ some (expected 3 0 polled)
poll_all-observer_example = poll_all-observer polled task world [] refl refl

abbrev same_waker : ℕ → ℕ → Bool
same_waker a b = a == b

panicked-ne-pending : panicked ≢ pending
panicked-ne-pending e = cc

waits : (poll_handle same_waker 8 handle world).1 ≡ not_ready
unfolding poll_handle lookup
waits = refl

abbrev waiting : World
waiting = (poll_handle same_waker 8 handle world).0.0

five-ne-three : ◌≢◌ {A = ℕ} 5 3
five-ne-three e = ground arith

-- Another handle is polled, and the task itself, which is pending.
abbrev busy : World
busy =
    (poll_task (λ w. (w, pending)) task
      (poll_handle same_waker 2 (record handle { task = 5 }) waiting).0.0).0.0

between : Runs (λ j. j ≢ 3) waiting busy
between =
    joins same_waker 2 (record handle { task = 5 }) five-ne-three
      (polls (λ w. (w, pending)) task (inl refl) stays stays)

abbrev tried_again : ObservedTask
tried_again = record task { attempt = 1 }

abbrev panics : World → World × TaskPollOutcome
panics w = (w, panicked)

abbrev finished_world : World
finished_world = (poll_task panics tried_again busy).0.0

poll_handle-woken_example :
    (v : ℕ) × (finished_world.woken ≡ (call (poll_started 3 1) busy).woken ++ (v ∷ []))
    × ((v ≡ 8) ⊎ (same_waker v 8 ≡ true))
    × ((poll_handle same_waker 9 handle finished_world).1 ≡ is_ready)
poll_handle-woken_example =
    poll_handle-woken same_waker 8 9 handle handle world busy finished_world panics tried_again
      waits between refl refl stays panicked-ne-pending stays refl

spawn_lem_example :
    let tasks : List ObservedTask =
      record { task = 0; completion = some 0; attempt = 2; finished = true } ∷ [] in
    ((16 ≤ length tasks) × (spawn tasks world ≡ none))
    ⊎ ((length tasks < 16)
        × ((r : (List ObservedTask × TaskHandle) × World) × (spawn tasks world ≡ some r)
            × Numbered 0 r.0.0
            × (length r.0.0 ≡ suc (length tasks))
            × (r.0.1.task ≡ length tasks)
            × ((state_of r.0.1.task r.1).finished ≡ false)))
spawn_lem_example = spawn_lem _ world (refl, refl, tt)
