-- ===== src/TaskSet/Polling.antt =====
-- What an observer sees of the polls of a task.
use laplace.Prelude.{
  u64_max, ℕ, ◌+◌, min, ◌≡◌, ◌≢◌, refl, ap, ◌∙◌, true, false, Option, none, some, List, [], ◌∷◌,
  ◌++◌, arith,
}
use mathlib.Core.List.{append-nil, append_assoc}
use laplace.TaskSet.Tasks.{
  TaskPollOutcome, pending, ready, panicked, TaskCall, poll_started, poll_completed, task_completed,
  Poll, is_ready, World, ObservedTask, poll_task, complete_if, call,
}

-- One poll of a wrapped future: what it does to the world, what it says to the observer meanwhile, and
-- how it ends.
pub record Polled : Type 0 where
  pub run : World → World × TaskPollOutcome
  pub said : List TaskCall
  pub outcome : TaskPollOutcome
  pub says :
      (w : World) (log : List TaskCall)
      → w.observer ≡ some log
      → (run w).0.observer ≡ some (log ++ said)
  pub ends : (w : World) → (run w).1 ≡ outcome

-- Polls of one task, one after another.
unfoldable pub poll_all : List Polled → ObservedTask → World → World × ObservedTask
unfolding poll_task
poll_all [] this w = (w, this)
poll_all (p ∷ ps) this w = let ((w', next), _) = poll_task p.run this w in poll_all ps next w'

-- The reports of one poll: its start, what is said in it, and its end.
abbrev pub reports : (task attempt : ℕ) → Polled → List TaskCall
reports task attempt p =
    (poll_started task attempt ∷ []) ++ (p.said ++ (poll_completed task attempt p.outcome ∷ []))

-- What an observer should see of the polls of a task, from one attempt on: the number of the attempt
-- goes up by one and stays at the greatest 64-bit number, and the first poll that does not end pending
-- completes the task, after which nothing is reported.
abbrev pub expected : (task attempt : ℕ) → List Polled → List TaskCall
expected task attempt [] = []
expected task attempt (p ∷ ps) = elim p.outcome [
  | pending ↦ reports task attempt p ++ expected task (min (attempt + 1) u64_max) ps
  | ready ↦ reports task attempt p ++ (task_completed task ∷ [])
  | panicked ↦ reports task attempt p ++ (task_completed task ∷ [])
]

complete_if-observer : (k : Option ℕ) (w : World) → (complete_if k w).observer ≡ w.observer
unfolding complete_if
complete_if-observer none w = refl
complete_if-observer (some k) w = ground arith

poll_task-finished :
    (p : Polled) (this : ObservedTask) (w : World)
    → this.finished ≡ true
    → poll_task p.run this w ≡ ((w, this), is_ready)
unfolding poll_task
poll_task-finished p this w f = ground arith

poll_all-finished :
    (ps : List Polled) (this : ObservedTask) (w : World)
    → this.finished ≡ true
    → (poll_all ps this w).0.observer ≡ w.observer
unfolding poll_all
poll_all-finished [] this w f = refl
poll_all-finished (p ∷ ps) this w f =
    ap (λ (r : (World × ObservedTask) × Poll). (poll_all ps r.0.1 r.0.0).0.observer)
      (poll_task-finished p this w f)
    ∙ poll_all-finished ps this w f

-- The world when the end of a poll has been reported.
unfoldable reported : Polled → ObservedTask → World → World
reported p this w =
    call (poll_completed this.task this.attempt p.outcome)
      (p.run (call (poll_started this.task this.attempt) w)).0

call-observer :
    (c : TaskCall) (w : World) (log : List TaskCall)
    → w.observer ≡ some log
    → (call c w).observer ≡ some (log ++ (c ∷ []))
unfolding call
call-observer c w log h = ground arith

reported-observer :
    (p : Polled) (this : ObservedTask) (w : World) (log : List TaskCall)
    → w.observer ≡ some log
    → (reported p this w).observer ≡ some (log ++ reports this.task this.attempt p)
unfolding reported
reported-observer p this w log h =
    let started = call-observer (poll_started this.task this.attempt) w log h in
    let said = p.says _ _ started in
    call-observer _ _ _ said
    ∙ ap some (
        append_assoc (log ++ (poll_started this.task this.attempt ∷ [])) p.said
          (poll_completed this.task this.attempt p.outcome ∷ [])
        ∙ append_assoc log (poll_started this.task this.attempt ∷ [])
            (p.said ++ (poll_completed this.task this.attempt p.outcome ∷ [])))

poll_task-pending :
    (p : Polled) (this : ObservedTask) (w : World)
    → this.finished ≡ false
    → p.outcome ≡ pending
    → (poll_task p.run this w).0
      ≡ (reported p this w, record this { attempt = min (this.attempt + 1) u64_max })
unfolding poll_task reported
poll_task-pending p this w f o =
    ground (arith, p.ends (call (poll_started this.task this.attempt) w))

poll_task-done :
    (p : Polled) (this : ObservedTask) (w : World)
    → this.finished ≡ false
    → p.outcome ≢ pending
    → (poll_task p.run this w).0 ≡ (
      call (task_completed this.task) (complete_if this.completion (reported p this w)),
      record this { attempt = min (this.attempt + 1) u64_max; finished = true },
    )
unfolding poll_task reported
poll_task-done p this w f o = ground (arith, p.ends (call (poll_started this.task this.attempt) w))

-- The poll that ends a task is the last that is reported.
poll_all-done :
    (p : Polled) (ps : List Polled) (this : ObservedTask) (w : World) (log : List TaskCall)
    → this.finished ≡ false
    → w.observer ≡ some log
    → p.outcome ≢ pending
    → (poll_all (p ∷ ps) this w).0.observer
      ≡ some (log ++ (reports this.task this.attempt p ++ (task_completed this.task ∷ [])))
unfolding poll_all
poll_all-done p ps this w log f o ne =
    ap (λ (r : World × ObservedTask). (poll_all ps r.1 r.0).0.observer)
      (poll_task-done p this w f ne)
    ∙ poll_all-finished ps _ _ refl
    ∙ call-observer _ _ _ (
        complete_if-observer this.completion (reported p this w) ∙ reported-observer p this w log o)
    ∙ ap some (append_assoc log (reports this.task this.attempt p) (task_completed this.task ∷ []))

-- While an observer is installed it is told of each poll of a task that is not finished: its start,
-- then what the poll of the wrapped future says to it, whatever else that does, and how the poll
-- ended. The attempts are numbered from the task's own number on, which stays at 2 ^ 64 - 1 when it
-- has come so far. The first poll that returns or panics is followed by the task's completion, and
-- later polls are not reported.
pub poll_all-observer :
    (ps : List Polled) (this : ObservedTask) (w : World) (log : List TaskCall)
    → this.finished ≡ false
    → w.observer ≡ some log
    → (poll_all ps this w).0.observer ≡ some (log ++ expected this.task this.attempt ps)
unfolding poll_all
poll_all-observer [] this w log f o = rw append-nil o
poll_all-observer (p ∷ ps) this w log f o =
    go (λ w' log' o'. poll_all-observer ps next w' log' f o') p.outcome refl
  where
    next : ObservedTask
    next = record this { attempt = min (this.attempt + 1) u64_max }

    go :
        ((w' : World) (log' : List TaskCall)
          → w'.observer ≡ some log'
          → (poll_all ps next w').0.observer
            ≡ some (log' ++ expected this.task (min (this.attempt + 1) u64_max) ps))
        → (out : TaskPollOutcome) → p.outcome ≡ out
        → (poll_all (p ∷ ps) this w).0.observer
          ≡ some (log ++ expected this.task this.attempt (p ∷ ps))
    go rest pending e = rw e (
        ap (λ (r : World × ObservedTask). (poll_all ps r.1 r.0).0.observer)
          (poll_task-pending p this w f e)
        ∙ rest (reported p this w) (log ++ reports this.task this.attempt p)
            (reported-observer p this w log o)
        ∙ ap some (
            append_assoc log (reports this.task this.attempt p)
              (expected this.task (min (this.attempt + 1) u64_max) ps)))
    go rest ready e = rw e (poll_all-done p ps this w log f o (λ h. cc))
    go rest panicked e = rw e (poll_all-done p ps this w log f o (λ h. cc))
