-- ===== src/TaskSet/Joining.antt =====
-- What a task's end does to its handle.
use laplace.Prelude.{
  ℕ, ◌≡◌, ◌≢◌, ◌⊎◌, inl, inr, refl, sym, subst, Bool, true, false, none, some, [], ◌∷◌, ◌++◌,
  lookup, lookup-insert, Option-cases, Bool-cases, arith,
}
use laplace.TaskSet.Tasks.{
  TaskPollOutcome, pending, poll_started, poll_completed, join_requested, task_completed, not_ready,
  is_ready, World, state_of, complete, poll_completion, TaskHandle, poll_handle, ObservedTask,
  poll_task, call,
}
use laplace.TaskSet.Running.{call-completions, Runs, Runs-Same, Finished, Runs-Finished}

-- The wakers that a completion wakes, and that the cell is finished afterwards.
complete_lem :
    (k : ℕ) (w : World)
    → (lookup k (complete k w).completions ≡ some (record { finished = true; waker = none }))
      × ((v : ℕ) → (state_of k w).waker ≡ some v → (complete k w).woken ≡ w.woken ++ (v ∷ []))
unfolding complete
complete_lem k w = (
  ground (arith, lookup-insert k k (record { finished = true; waker = none }) w.completions),
  λ v e. ground arith,
)

-- The poll that ends a task, in the world that the wrapped future leaves.
poll_task-completes :
    (inner : World → World × TaskPollOutcome) (this : ObservedTask) (k : ℕ) (w : World)
    → let started = call (poll_started this.task this.attempt) w in
      this.completion ≡ some k
      → this.finished ≡ false
      → (inner started).1 ≢ pending
      → (poll_task inner this w).0.0
        ≡ call (task_completed this.task) (
            complete k
              (call (poll_completed this.task this.attempt (inner started).1) (inner started).0))
unfolding poll_task
poll_task-completes inner this k w c f ne = ground arith

poll_task-woken :
    (inner : World → World × TaskPollOutcome) (this : ObservedTask) (k v : ℕ) (w : World)
    → let started = call (poll_started this.task this.attempt) w in
      this.completion ≡ some k
      → this.finished ≡ false
      → (inner started).1 ≢ pending
      → (state_of k (inner started).0).waker ≡ some v
      → ((poll_task inner this w).0.0.woken ≡ (inner started).0.woken ++ (v ∷ []))
        × Finished k (poll_task inner this w).0.0
unfolding state_of
poll_task-woken inner this k v w c f ne e =
    let started = call (poll_started this.task this.attempt) w in
    let out = (inner started).1 in
    let over = call (poll_completed this.task this.attempt out) (inner started).0 in
    let told = call-completions (poll_completed this.task this.attempt out) (inner started).0 in
    let done = call-completions (task_completed this.task) (complete k over) in
    let (finished, woken) = complete_lem k over in
    rw (poll_task-completes inner this k w c f ne)
      (ground (arith, told, done, woken v), ground (arith, done, finished))

-- A poll of an unfinished completion leaves a waker in the cell that wakes the poller.
poll_completion-registers :
    (will_wake : ℕ → ℕ → Bool) (cx k : ℕ) (w : World)
    → (poll_completion will_wake cx k w).1 ≡ not_ready
    → (v : ℕ) × ((state_of k (poll_completion will_wake cx k w).0).waker ≡ some v)
      × ((v ≡ cx) ⊎ (will_wake v cx ≡ true))
unfolding poll_completion
poll_completion-registers will_wake cx k w p = elim (Option-cases (state_of k w).waker) [
  | inl empty ↦ (
    cx,
    ground (arith, lookup-insert k k (record { finished = false; waker = some cx }) w.completions),
    inl refl,
  )
  | inr (v, old) ↦ elim (Bool-cases (will_wake v cx)) [
    | inl same ↦ (v, ground arith, inr same)
    | inr other ↦ (
      cx,
      ground
          (arith, lookup-insert k k (record { finished = false; waker = some cx }) w.completions),
      inl refl,
    )
  ]
]

poll_handle-registers :
    (will_wake : ℕ → ℕ → Bool) (cx : ℕ) (h : TaskHandle) (w : World)
    → (poll_handle will_wake cx h w).1 ≡ not_ready
    → (v : ℕ) × ((state_of h.task (poll_handle will_wake cx h w).0.0).waker ≡ some v)
      × ((v ≡ cx) ⊎ (will_wake v cx ≡ true))
unfolding poll_handle
poll_handle-registers will_wake cx h w p = elim (Bool-cases h.requested) [
  | inl asked ↦
      let (v, e, c) = poll_completion-registers will_wake cx h.task w (ground arith) in
      (v, ground (arith), c)
  | inr fresh ↦
      let (v, e, c) =
        poll_completion-registers will_wake cx h.task (call (join_requested h.task) w)
          (ground arith) in
      (v, ground arith, c)
]

poll_handle-is_ready :
    (will_wake : ℕ → ℕ → Bool) (cx : ℕ) (h : TaskHandle) (w : World)
    → Finished h.task w
    → (poll_handle will_wake cx h w).1 ≡ is_ready
unfolding poll_handle state_of
poll_handle-is_ready will_wake cx h w e = ground (arith, call-completions (join_requested h.task) w)

-- No wakeup is lost. Let the poll of a task's handle be pending, and let then anything go on that
-- does not poll a handle of this task again or complete its cell (reports, polls of other tasks and
-- handles, pending polls of this task), before and within the poll of the task that returns or
-- panics. That poll wakes one waker more than the wrapped future does, which is the one that the
-- handle was polled with or one that wakes the same task. Whatever reports and polls of tasks and
-- handles follow, the task's handles are ready from then on.
pub poll_handle-woken :
    (will_wake : ℕ → ℕ → Bool) (cx cx' : ℕ) (h h' : TaskHandle) (w w1 later : World)
    (inner : World → World × TaskPollOutcome) (this : ObservedTask)
    → (poll_handle will_wake cx h w).1 ≡ not_ready
    → Runs (λ j. j ≢ h.task) (poll_handle will_wake cx h w).0.0 w1
    → this.completion ≡ some h.task
    → this.finished ≡ false
    → let started = call (poll_started this.task this.attempt) w1 in
      let after = (poll_task inner this w1).0.0 in
      Runs (λ j. j ≢ h.task) started (inner started).0
      → (inner started).1 ≢ pending
      → Runs (λ _. Unit {0}) after later
      → h'.task ≡ h.task
      → (v : ℕ) × (after.woken ≡ (inner started).0.woken ++ (v ∷ []))
        × ((v ≡ cx) ⊎ (will_wake v cx ≡ true))
        × ((poll_handle will_wake cx' h' later).1 ≡ is_ready)
unfolding state_of
poll_handle-woken will_wake cx cx' h h' w w1 later inner this p before c f within ne after one =
    let started = call (poll_started this.task this.attempt) w1 in
    let (v, e, same) = poll_handle-registers will_wake cx h w p in
    let kept = Runs-Same before in
    let kept' = Runs-Same within in
    let told = call-completions (poll_started this.task this.attempt) w1 in
    let (woken, finished) = poll_task-woken inner this h.task v w1 c f ne (ground arith) in
    (
      v,
      woken,
      same,
      poll_handle-is_ready will_wake cx' h' later
          (subst (λ t. Finished t later) (sym one) (Runs-Finished h.task after finished)),
    )
