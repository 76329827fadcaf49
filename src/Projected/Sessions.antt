-- ===== src/Projected/Sessions.antt =====
-- What a capture session returns of the polls of tasks.
use laplace.Prelude.{
  ℕ, ◌≡◌, ◌∙◌, refl, sym, subst, Bool, true, false, none, List, [], ◌∷◌, ◌++◌, insert,
  if◌then◌else◌,
}
use mathlib.Core.List.{append-nil}
use laplace.Event.{ProbeEvent, future_pending, future_ready}
use laplace.Session.Sinks.{Process, local_sender, begin, finish, received, clear_current_task_id}
use laplace.Session.Captures.{NoLegacy}
use laplace.TaskSet.Tasks.{TaskPollOutcome, pending, ready, panicked}
use laplace.Projected.TaskHook.{poll_started, poll_completed, task_completed, probe_task}
use laplace.Projected.Polls.{
  TaskPoll, probe_all, run_poll, run_polls, end_events, poll_events, all_events,
}
use laplace.Projected.Attribution.{
  Captured, chain, emit-Captured, probe_all-Captured, unread, poll_started-Captured,
}

module _ {J : Type 0} (tx : ℕ) where
  cleared : (os : ℕ) (s : Process J) → NoLegacy tx s → Captured tx [] s (clear_current_task_id os s)
  unfolding clear_current_task_id
  cleared os s l = unread tx s s.probe_thread_id (insert os none s.current_task) l

  after_clear :
      (os : ℕ) (es : List (ProbeEvent J)) (s s' : Process J)
      → Captured tx es s s'
      → Captured tx es s (clear_current_task_id os s')
  after_clear os es s s' k =
      subst (λ z. Captured tx z s (clear_current_task_id os s')) (append-nil es)
        (chain tx es [] s s' _ k (cleared os s' k.session))

  poll_completed-Captured :
      (os t attempt : ℕ) (outcome : TaskPollOutcome) (s : Process J)
      → NoLegacy tx s
      → Captured tx (end_events t attempt outcome) s (poll_completed os t attempt outcome s)
  unfolding poll_completed
  poll_completed-Captured os t attempt pending s l =
      after_clear os _ s _ (emit-Captured tx os (future_pending t none attempt) s l)
  poll_completed-Captured os t attempt ready s l =
      after_clear os _ s _ (emit-Captured tx os (future_ready t none attempt) s l)
  poll_completed-Captured os t attempt panicked s l = cleared os s l

  task_completed-Captured :
      (os t : ℕ) (s : Process J)
      → NoLegacy tx s
      → Captured tx (ProbeEvent.task_completed t ∷ []) s (task_completed os t s)
  unfolding task_completed
  task_completed-Captured os t s l =
      let quiet = cleared os s l in
      chain tx [] (ProbeEvent.task_completed t ∷ []) s (clear_current_task_id os s) _ quiet (
        emit-Captured tx os (ProbeEvent.task_completed t) (clear_current_task_id os s)
          quiet.session)

  run_poll-Captured :
      (p : TaskPoll) (s : Process J) → NoLegacy tx s → Captured tx (poll_events p) s (run_poll p s)
  unfolding run_poll probe_task
  run_poll-Captured p s l =
      let (begun, on) = poll_started-Captured tx p.os p.task p.attempt s l in
      let (inside, _) =
        probe_all-Captured tx p.os p.task p.inner (poll_started p.os p.task p.attempt s)
          begun.session on in
      let within = probe_all p.os p.inner (poll_started p.os p.task p.attempt s) in
      let ended = poll_completed-Captured p.os p.task p.attempt p.outcome within inside.session in
      chain tx _ _ s (poll_started p.os p.task p.attempt s) _ begun (
        chain tx _ _ (poll_started p.os p.task p.attempt s) within _ inside
          (go p.completes within (poll_completed p.os p.task p.attempt p.outcome within) ended))
    where
      go :
          (completes : Bool) (within done : Process J)
          → Captured tx (end_events p.task p.attempt p.outcome) within done
          → Captured tx
              (end_events p.task p.attempt p.outcome
                ++ (if completes then ProbeEvent.task_completed p.task ∷ [] else []))
              within
              (if completes then task_completed p.os p.task done else done)
      go true within done k =
          chain tx _ _ within done _ k (task_completed-Captured p.os p.task done k.session)
      go false within done k =
          subst (λ z. Captured tx z within done)
            (sym (append-nil (end_events p.task p.attempt p.outcome))) k

  run_polls-Captured :
      (ps : List TaskPoll) (s : Process J)
      → NoLegacy tx s
      → Captured tx (all_events ps) s (run_polls ps s)
  unfolding run_polls
  run_polls-Captured [] s l = record {
    session = l;
    captured = sym (append-nil (received tx s.sent));
  }
  run_polls-Captured (p ∷ ps) s l =
      let one = run_poll-Captured p s l in
      chain tx (poll_events p) (all_events ps) s (run_poll p s) _ one
        (run_polls-Captured ps (run_poll p s) one.session)

  -- Where no thread has a sink of its own and there is no global one, a capture session returns of
  -- polls of tasks, each on some thread while the probe hooks are installed, for each poll its start,
  -- then what the task did in it with the model primitives, in order and under the task's own id (a
  -- task that it spawned has it as its parent), then how the poll ended unless it panicked, and then
  -- the task's completion if the poll completed it.
  pub finish-run_polls :
      (ps : List TaskPoll) (s : Process J)
      → ((os : ℕ) → local_sender os s ≡ none)
      → s.global_probe_sender ≡ none
      → received tx s.sent ≡ []
      → (finish tx (run_polls ps (begin tx s))).1 ≡ all_events ps
  unfolding finish
  finish-run_polls ps s no_local no_global unused =
      (run_polls-Captured ps (begin tx s) started).captured ∙ nothing_before
    where
      started : NoLegacy tx (begin tx s)
      started =
          unfold begin local_sender in
          record { no_local = no_local; no_global = no_global; session = refl }

      nothing_before : received tx (begin tx s).sent ++ all_events ps ≡ all_events ps
      nothing_before = unfold begin in rw unused refl
