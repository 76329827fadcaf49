-- ===== src/TaskSet/Running.antt =====
-- What else goes on while a handle waits for its task.
use laplace.Prelude.{
  ℕ, ◌≡◌, ◌≢◌, ◌⊎◌, inl, inr, refl, ◌∙◌, Option, sym, subst, Bool, true, false, none, some, lookup,
  lookup-insert, ==_iff, if◌then◌else◌, Bool-cases, arith,
}
use laplace.TaskSet.Tasks.{
  TaskPollOutcome, pending, TaskCall, poll_started, poll_completed, join_requested, join_resolved,
  task_completed, World, state_of, complete, poll_completion, TaskHandle, poll_handle, ObservedTask,
  poll_task, complete_if, call,
}

pub call-completions :
    (c : TaskCall) (w : World)
    → ((call c w).completions ≡ w.completions) × ((call c w).woken ≡ w.woken)
unfolding call
call-completions c w = ground arith

abbrev pub Completes : (ℕ → Type 0) → Option ℕ → Type 0
Completes P none = Unit
Completes P (some k) = P k

-- Reports, polls of handles and polls of tasks, in any order, nested in one another as the wrapped
-- futures do; a handle is only polled and a task only completed where `P` has its cell.
pub data Runs (P : ℕ → Type 0) : World → World → Type 0 where
  stays : {w : World} → Runs P w w
  reports : {w v : World} (c : TaskCall) → Runs P (call c w) v → Runs P w v
  joins :
      {w v : World} (will_wake : ℕ → ℕ → Bool) (cx : ℕ) (h : TaskHandle)
      → P h.task
      → Runs P (poll_handle will_wake cx h w).0.0 v
      → Runs P w v
  polls :
      {w v : World} (inner : World → World × TaskPollOutcome) (this : ObservedTask)
      → ((inner (call (poll_started this.task this.attempt) w)).1 ≡ pending)
        ⊎ Completes P this.completion
      → Runs P
          (call (poll_started this.task this.attempt) w)
          (inner (call (poll_started this.task this.attempt) w)).0
      → Runs P (poll_task inner this w).0.0 v
      → Runs P w v

-- The cell of a task stays as it is.
abbrev pub Same : ℕ → World → World → Type 0
Same k v w = lookup k v.completions ≡ lookup k w.completions

complete_if-Same :
    (k : ℕ) (c : Option ℕ) (w : World) → Completes (λ j. j ≢ k) c → Same k (complete_if c w) w
unfolding complete_if complete
complete_if-Same k none w ne = refl
complete_if-Same k (some j) w ne =
    ground (arith, lookup-insert j k (record { finished = true; waker = none }) w.completions)

poll_completion-Same :
    (will_wake : ℕ → ℕ → Bool) (cx j k : ℕ) (w : World)
    → j ≢ k
    → Same k (poll_completion will_wake cx j w).0 w
unfolding poll_completion
poll_completion-Same will_wake cx j k w ne =
    ground (arith, lookup-insert j k (record { finished = false; waker = some cx }) w.completions)

poll_handle-Same :
    (will_wake : ℕ → ℕ → Bool) (cx k : ℕ) (h : TaskHandle) (w : World)
    → h.task ≢ k
    → Same k (poll_handle will_wake cx h w).0.0 w
unfolding poll_handle call
poll_handle-Same will_wake cx k h w ne = ground (
  arith,
  poll_completion-Same will_wake cx h.task k w ne,
  poll_completion-Same will_wake cx h.task k (call (join_requested h.task) w) ne,
  call-completions (join_requested h.task) w,
)

-- The world that a poll of a task leaves: that before it, if the task is finished, and else that of
-- the wrapped future, with the completion if the poll was not pending.
poll_task_cases :
    (inner : World → World × TaskPollOutcome) (this : ObservedTask) (w : World)
    → let started = call (poll_started this.task this.attempt) w in
      let over = call (poll_completed this.task this.attempt (inner started).1) (inner started).0 in
      ((poll_task inner this w).0.0 ≡ w)
      ⊎ ((((inner started).1 ≡ pending) × ((poll_task inner this w).0.0 ≡ over))
          ⊎ (((inner started).1 ≢ pending)
              × ((poll_task inner this w).0.0
                  ≡ call (task_completed this.task) (complete_if this.completion over))))
unfolding poll_task
poll_task_cases inner this w = ground arith

poll_task-Same :
    (inner : World → World × TaskPollOutcome) (this : ObservedTask) (k : ℕ) (w : World)
    → let started = call (poll_started this.task this.attempt) w in
      ((inner started).1 ≡ pending) ⊎ Completes (λ j. j ≢ k) this.completion
      → Same k (inner started).0 started
      → Same k (poll_task inner this w).0.0 w
poll_task-Same inner this k w quiet same =
    let started = call (poll_started this.task this.attempt) w in
    let out = (inner started).1 in
    let over = call (poll_completed this.task this.attempt out) (inner started).0 in
    ground (
      arith,
      poll_task_cases inner this w,
      complete_if-Same k this.completion over,
      call-completions (poll_started this.task this.attempt) w,
      call-completions (poll_completed this.task this.attempt out) (inner started).0,
      call-completions (task_completed this.task) (complete_if this.completion over),
    )

pub Runs-Same : {k : ℕ} {w v : World} → Runs (λ j. j ≢ k) w v → Same k v w
Runs-Same stays = refl
Runs-Same {k} {w} {v} (reports c r) = ground (arith, Runs-Same r, call-completions c w)
Runs-Same {k} {w} {v} (joins will_wake cx h ne r) =
    Runs-Same r ∙ poll_handle-Same will_wake cx k h w ne
Runs-Same {k} {w} {v} (polls inner this quiet r r') =
    Runs-Same r' ∙ poll_task-Same inner this k w quiet (Runs-Same r)

-- A cell that is finished stays finished, whatever goes on.
abbrev pub Finished : ℕ → World → Type 0
Finished k w = (state_of k w).finished ≡ true

call-Finished : (k : ℕ) (c : TaskCall) (w : World) → Finished k w → Finished k (call c w)
unfolding state_of
call-Finished k c w f = ground (arith, call-completions c w)

complete_if-Finished :
    (k : ℕ) (c : Option ℕ) (w : World) → Finished k w → Finished k (complete_if c w)
unfolding complete_if complete state_of
complete_if-Finished k none w f = f
complete_if-Finished k (some j) w f =
    ground (arith, lookup-insert j k (record { finished = true; waker = none }) w.completions)

poll_completion-Finished :
    (will_wake : ℕ → ℕ → Bool) (cx j k : ℕ) (w : World)
    → Finished k w
    → Finished k (poll_completion will_wake cx j w).0
unfolding poll_completion state_of
poll_completion-Finished will_wake cx j k w f = ground (
  arith,
  lookup-insert j k (record { finished = false; waker = some cx }) w.completions,
  ==_iff j k,
)

poll_handle_cases :
    (will_wake : ℕ → ℕ → Bool) (cx : ℕ) (h : TaskHandle) (w : World)
    → let w1 : World = if h.requested then w else call (join_requested h.task) w in
      let w2 = (poll_completion will_wake cx h.task w1).0 in
      ((poll_handle will_wake cx h w).0.0 ≡ w2)
      ⊎ ((poll_handle will_wake cx h w).0.0 ≡ call (join_resolved h.task) w2)
unfolding poll_handle
poll_handle_cases will_wake cx h w = ground arith

poll_handle-Finished :
    (will_wake : ℕ → ℕ → Bool) (cx k : ℕ) (h : TaskHandle) (w : World)
    → Finished k w
    → Finished k (poll_handle will_wake cx h w).0.0
poll_handle-Finished will_wake cx k h w f =
    let w1 : World = if h.requested then w else call (join_requested h.task) w in
    let f1 : Finished k w1 = elim (Bool-cases h.requested) [
      | inl asked ↦ rw asked f
      | inr fresh ↦ rw fresh (call-Finished k (join_requested h.task) w f)
    ] in
    let f2 = poll_completion-Finished will_wake cx h.task k w1 f1 in
    elim (poll_handle_cases will_wake cx h w) [
      | inl e ↦ subst (Finished k) (sym e) f2
      | inr e ↦
          subst (Finished k) (sym e)
            (call-Finished k (join_resolved h.task) (poll_completion will_wake cx h.task w1).0 f2)
    ]

poll_task-Finished :
    (inner : World → World × TaskPollOutcome) (this : ObservedTask) (k : ℕ) (w : World)
    → let started = call (poll_started this.task this.attempt) w in
      (Finished k started → Finished k (inner started).0)
      → Finished k w
      → Finished k (poll_task inner this w).0.0
poll_task-Finished inner this k w kept f =
    let started = call (poll_started this.task this.attempt) w in
    let out = (inner started).1 in
    let over : World = call (poll_completed this.task this.attempt out) (inner started).0 in
    let f1 = kept (call-Finished k (poll_started this.task this.attempt) w f) in
    let f2 : Finished k over =
      call-Finished k (poll_completed this.task this.attempt out) (inner started).0 f1 in
    let f3 =
      call-Finished k (task_completed this.task) _
        (complete_if-Finished k this.completion over f2) in
    elim (poll_task_cases inner this w) [
      | inl unpolled ↦ subst (Finished k) (sym unpolled) f
      | inr (inl (_, e)) ↦ subst (Finished k) (sym e) f2
      | inr (inr (_, e)) ↦ subst (Finished k) (sym e) f3
    ]

pub Runs-Finished :
    {P : ℕ → Type 0} (k : ℕ) {w v : World} → Runs P w v → Finished k w → Finished k v
Runs-Finished k stays f = f
Runs-Finished {P} k {w} (reports c r) f = Runs-Finished k r (call-Finished k c w f)
Runs-Finished {P} k {w} (joins will_wake cx h _ r) f =
    Runs-Finished k r (poll_handle-Finished will_wake cx k h w f)
Runs-Finished {P} k {w} (polls inner this _ r r') f =
    Runs-Finished k r' (poll_task-Finished inner this k w (Runs-Finished k r) f)
