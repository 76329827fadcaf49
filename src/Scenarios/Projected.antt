-- ===== src/Scenarios/Projected.antt =====
-- Two polls of a task that takes a lock, spawns a task and panics.
use laplace.Prelude.{◌≡◌, refl, true, false, lookup, none, some, List, [], ◌∷◌}
use laplace.Event.{
  ProbeEvent, task_spawned, task_polled, future_pending, async_lock_requested, async_lock_acquired,
  task_join_requested,
}
use laplace.Session.Sinks.{Process, fresh_process, local_sender, begin, finish, received}
use laplace.AsyncLock.Calls.{LockCall, AsyncAcquireKind}
use laplace.TaskSet.Tasks.{pending, panicked}
use laplace.Projected.Kinds.{acquire_kind}
use laplace.Projected.Polls.{TaskPoll, locks, spawns, asks_to_join, run_polls, all_events}
use laplace.Projected.Sessions.{finish-run_polls}

abbrev polls : List TaskPoll
polls =
    record {
      os = 50;
      task = 3;
      attempt = 0;
      inner =
          locks (LockCall.requested 1 9 AsyncAcquireKind.mutex) ∷ spawns 77 ∷ asks_to_join 77 ∷ [];
      outcome = pending;
      completes = false;
    }
    ∷ record {
      os = 51;
      task = 3;
      attempt = 1;
      inner = locks (LockCall.acquired 1 9 AsyncAcquireKind.mutex) ∷ [];
      outcome = panicked;
      completes = true;
    }
    ∷ []

abbrev quiet_process : Process (Unit {0})
quiet_process = fresh_process

expected :
    all_events {J = Unit {0}} polls
    ≡ task_polled 3 0
      ∷ async_lock_requested 3 1 9 (acquire_kind AsyncAcquireKind.mutex)
      ∷ task_spawned 77 (some 3) none
      ∷ task_join_requested 3 77
      ∷ future_pending 3 none 0
      ∷ task_polled 3 1
      ∷ async_lock_acquired 3 1 9 (acquire_kind AsyncAcquireKind.mutex)
      ∷ ProbeEvent.task_completed 3
      ∷ []
expected = refl

finish-run_polls_example : (finish 5 (run_polls polls (begin 5 quiet_process))).1 ≡ all_events polls
unfolding local_sender received lookup
finish-run_polls_example = finish-run_polls 5 polls quiet_process (λ os. refl) refl refl
