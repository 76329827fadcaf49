-- ===== src/Projected/Polls.antt =====
-- Polls of tasks while the probe hooks are installed: what the hooks are told, and what one expects
-- to be captured.
use laplace.Prelude.{ℕ, Bool, none, some, List, [], ◌∷◌, ◌++◌, map, if◌then◌else◌}
use laplace.Event.{
  ProbeEvent, task_spawned, task_polled, future_pending, future_ready, task_join_requested,
  task_join_resolved,
}
use laplace.Session.Sinks.{Process}
use laplace.AsyncLock.Calls.{LockCall}
use laplace.Notify.Waiters.{NotifyCall}
use laplace.Oneshot.Endpoints.{ChannelCall}
use laplace.Cell.Swap.{CellCall}
use laplace.TaskSet.Tasks.{TaskPollOutcome, pending, ready, panicked, TaskCall}
use laplace.Projected.Kinds.{BroadcastCall}
use laplace.Projected.AsyncHooks.{
  lock_event, notify_event, channel_event, broadcast_event, cell_event, probe_async_lock,
  probe_async_notify, probe_async_channel, probe_async_broadcast, probe_async_cell,
}
use laplace.Projected.TaskHook.{probe_task}

-- What a task does in a poll that a hook is told of.
pub data Inner : Type 0 where
  locks : LockCall → Inner
  notifies : NotifyCall → Inner
  uses_channel : ChannelCall → Inner
  broadcasts : BroadcastCall → Inner
  uses_cell : CellCall → Inner
  spawns : (task : ℕ) → Inner
  asks_to_join has_joined : (joined : ℕ) → Inner

-- A poll on the OS thread `os`, and whether the task is completed by it.
pub record TaskPoll : Type 0 where
  pub os : ℕ
  pub task : ℕ
  pub attempt : ℕ
  pub inner : List Inner
  pub outcome : TaskPollOutcome
  pub completes : Bool

module _ {J : Type 0} where
  unfoldable pub probe_inner : (os : ℕ) → Inner → Process J → Process J
  unfolding probe_async_lock probe_async_notify probe_async_channel probe_async_broadcast
      probe_async_cell probe_task
  probe_inner os (locks c) s = probe_async_lock os c s
  probe_inner os (notifies c) s = probe_async_notify os c s
  probe_inner os (uses_channel c) s = probe_async_channel os c s
  probe_inner os (broadcasts c) s = probe_async_broadcast os c s
  probe_inner os (uses_cell c) s = probe_async_cell os c s
  probe_inner os (spawns task) s = probe_task os (TaskCall.dynamic_task_spawned task) s
  probe_inner os (asks_to_join joined) s = probe_task os (TaskCall.join_requested joined) s
  probe_inner os (has_joined joined) s = probe_task os (TaskCall.join_resolved joined) s

  unfoldable pub probe_all : (os : ℕ) → List Inner → Process J → Process J
  unfolding probe_inner
  probe_all os [] s = s
  probe_all os (i ∷ is) s = probe_all os is (probe_inner os i s)

  unfoldable pub run_poll : TaskPoll → Process J → Process J
  unfolding probe_all probe_task
  run_poll p s =
      let ended =
        probe_task p.os (TaskCall.poll_completed p.task p.attempt p.outcome)
          (probe_all p.os p.inner (probe_task p.os (TaskCall.poll_started p.task p.attempt) s)) in
      if p.completes then probe_task p.os (TaskCall.task_completed p.task) ended else ended

  unfoldable pub run_polls : List TaskPoll → Process J → Process J
  unfolding run_poll
  run_polls [] s = s
  run_polls (p ∷ ps) s = run_polls ps (run_poll p s)

  -- The event of what the task `t` does.
  abbrev pub event_in : (t : ℕ) → Inner → ProbeEvent J
  event_in t (locks c) = lock_event c t
  event_in t (notifies c) = notify_event c t
  event_in t (uses_channel c) = channel_event c t
  event_in t (broadcasts c) = broadcast_event c t
  event_in t (uses_cell c) = cell_event c t
  event_in t (spawns task) = task_spawned task (some t) none
  event_in t (asks_to_join joined) = task_join_requested t joined
  event_in t (has_joined joined) = task_join_resolved t joined

  abbrev pub end_events : (task attempt : ℕ) → TaskPollOutcome → List (ProbeEvent J)
  end_events task attempt pending = future_pending task none attempt ∷ []
  end_events task attempt ready = future_ready task none attempt ∷ []
  end_events task attempt panicked = []

  abbrev pub poll_events : TaskPoll → List (ProbeEvent J)
  poll_events p =
      (task_polled p.task p.attempt ∷ [])
      ++ (map (event_in p.task) p.inner
          ++ (end_events p.task p.attempt p.outcome
              ++ (if p.completes then ProbeEvent.task_completed p.task ∷ [] else [])))

  abbrev pub all_events : List TaskPoll → List (ProbeEvent J)
  all_events [] = []
  all_events (p ∷ ps) = poll_events p ++ all_events ps
