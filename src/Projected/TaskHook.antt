-- ===== src/Projected/TaskHook.antt =====
-- crates/laplace-probe-sdk/src/task.rs: `ProbeTaskHook`. `os` is the OS thread that calls.
use laplace.Prelude.{ℕ, none, some}
use laplace.Event.{
  ProbeEvent, task_spawned, task_polled, future_pending, future_ready, task_join_requested,
  task_join_resolved,
}
use laplace.Session.Sinks.{
  Process, set_current_task_id, clear_current_task_id, current_task_id, set_probe_thread_id, emit,
}
use laplace.TaskSet.Tasks.{TaskPollOutcome, pending, ready, panicked, TaskCall}

module _ {J : Type 0} where
  unfoldable pub task_registered : (os task : ℕ) → Process J → Process J
  task_registered os task s = emit os (task_spawned task none none) s

  unfoldable pub dynamic_task_spawned : (os task : ℕ) → Process J → Process J
  dynamic_task_spawned os task s = emit os (task_spawned task (current_task_id os s) none) s

  unfoldable pub poll_started : (os task attempt : ℕ) → Process J → Process J
  poll_started os task attempt s =
      emit os (task_polled task attempt)
        (set_probe_thread_id os task (set_current_task_id os task s))

  unfoldable pub poll_completed : (os task attempt : ℕ) → TaskPollOutcome → Process J → Process J
  poll_completed os task attempt pending s =
      clear_current_task_id os (emit os (future_pending task none attempt) s)
  poll_completed os task attempt ready s =
      clear_current_task_id os (emit os (future_ready task none attempt) s)
  poll_completed os task attempt panicked s = clear_current_task_id os s

  unfoldable pub task_completed : (os task : ℕ) → Process J → Process J
  task_completed os task s = emit os (ProbeEvent.task_completed task) (clear_current_task_id os s)

  -- A join outside of any task is not reported.
  unfoldable pub join_requested : (os joined : ℕ) → Process J → Process J
  join_requested os joined s = elim (current_task_id os s) [
    | none ↦ s
    | some thread_id ↦ emit os (task_join_requested thread_id joined) s
  ]

  unfoldable pub join_resolved : (os joined : ℕ) → Process J → Process J
  join_resolved os joined s = elim (current_task_id os s) [
    | none ↦ s
    | some thread_id ↦ emit os (task_join_resolved thread_id joined) s
  ]

  -- A call of the hook.
  unfoldable pub probe_task : (os : ℕ) → TaskCall → Process J → Process J
  unfolding task_registered dynamic_task_spawned poll_started poll_completed task_completed
      join_requested join_resolved
  probe_task os (TaskCall.task_registered task) s = task_registered os task s
  probe_task os (TaskCall.dynamic_task_spawned task) s = dynamic_task_spawned os task s
  probe_task os (TaskCall.poll_started task attempt) s = poll_started os task attempt s
  probe_task os (TaskCall.poll_completed task attempt outcome) s =
      poll_completed os task attempt outcome s
  probe_task os (TaskCall.task_completed task) s = task_completed os task s
  probe_task os (TaskCall.join_requested joined) s = join_requested os joined s
  probe_task os (TaskCall.join_resolved joined) s = join_resolved os joined s
