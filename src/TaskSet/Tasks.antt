-- ===== src/TaskSet/Tasks.antt =====
-- crates/laplace-model-rt/src/task_set.rs, and the observer trait of hooks.rs.
--
-- The shared `TaskCompletion` of a task and its handle is a cell of a store, named by the task's id.
-- An observer hook is a log of its calls, `none` where no hook is installed; a
-- poll reads the hook once, so it is taken that none is installed or cleared while a poll runs. The future of a task is
-- not code of the crate: what one poll of it does is an argument, and so is `Waker::will_wake`.
use laplace.Prelude.{
  u64_max, ℕ, ◌+◌, min, Bool, true, false, not, Option, none, some, List, [], ◌∷◌, ◌++◌, lookup,
  insert, length, ltb, if◌then◌else◌,
}

-- hooks.rs, `TaskPollOutcome`.
pub data TaskPollOutcome : Type 0 where
  pending ready panicked : TaskPollOutcome

-- The calls of hooks.rs's `TaskObserverHook`.
pub data TaskCall : Type 0 where
  task_registered : (task : ℕ) → TaskCall
  dynamic_task_spawned : (task : ℕ) → TaskCall
  poll_started : (task attempt : ℕ) → TaskCall
  poll_completed : (task attempt : ℕ) (outcome : TaskPollOutcome) → TaskCall
  task_completed : (task : ℕ) → TaskCall
  join_requested : (joined : ℕ) → TaskCall
  join_resolved : (joined : ℕ) → TaskCall

-- `Poll<()>`.
pub data Poll : Type 0 where
  not_ready is_ready : Poll

pub record CompletionState : Type 0 where
  pub finished : Bool
  pub waker : Option ℕ

-- The completion cells, the observer's log and the wakers that were woken.
pub record World : Type 0 where
  pub completions : List (ℕ × CompletionState)
  pub observer : Option (List TaskCall)
  pub woken : List ℕ

abbrev pub max_model_tasks : ℕ
max_model_tasks = 16

abbrev pub default_completion : CompletionState
default_completion = record { finished = false; waker = none }

unfoldable pub call : TaskCall → World → World
call c w = elim w.observer [ none ↦ w | some log ↦ record w { observer = some (log ++ (c ∷ [])) } ]

unfoldable pub state_of : ℕ → World → CompletionState
state_of k w = elim (lookup k w.completions) [ none ↦ default_completion | some c ↦ c ]

-- `TaskCompletion::complete`.
unfoldable pub complete : ℕ → World → World
unfolding state_of
complete k w =
    let w' = record w {
      completions = insert k (record { finished = true; waker = none }) w.completions;
    } in
    elim (state_of k w).waker [
      | none ↦ w'
      | some waker ↦ record w' { woken = w.woken ++ (waker ∷ []) }
    ]

-- `TaskCompletion::poll`, by a task whose context has the waker `cx`.
unfoldable pub poll_completion : (ℕ → ℕ → Bool) → ℕ → ℕ → World → World × Poll
unfolding state_of
poll_completion will_wake cx k w =
    let replace_waker : Bool = elim (state_of k w).waker [
      | some waker ↦ not (will_wake waker cx)
      | none ↦ true
    ] in
    if (state_of k w).finished
    then (w, is_ready)
    else (if replace_waker
        then (
          record w {
            completions = insert k (record { finished = false; waker = some cx }) w.completions;
          },
          not_ready,
        )
        else (w, not_ready))

pub record TaskHandle : Type 0 where
  pub task : ℕ
  pub requested : Bool
  pub resolved : Bool

-- The cell of the handle's completion is that of its task.
unfoldable pub poll_handle : (ℕ → ℕ → Bool) → ℕ → TaskHandle → World → (World × TaskHandle) × Poll
unfolding call poll_completion
poll_handle will_wake cx this w =
    let w1 = if this.requested then w else call (join_requested this.task) w in
    let (w2, outcome) = poll_completion will_wake cx this.task w1 in
    let asked = record this { requested = true } in
    elim outcome [
      | not_ready ↦ ((w2, asked), not_ready)
      | is_ready ↦
          if this.resolved
          then ((w2, asked), is_ready)
          else ((call (join_resolved this.task) w2, record asked { resolved = true }), is_ready)
    ]

pub record ObservedTask : Type 0 where
  pub task : ℕ
  pub completion : Option ℕ
  pub attempt : ℕ
  pub finished : Bool

unfoldable pub complete_if : Option ℕ → World → World
unfolding complete
complete_if none w = w
complete_if (some k) w = complete k w

-- `ObservedTask::poll`, where `inner` says how the poll of the wrapped future ends and what it does
-- to the world meanwhile.
unfoldable pub poll_task :
    (World → World × TaskPollOutcome) → ObservedTask → World → (World × ObservedTask) × Poll
unfolding call complete_if
poll_task inner this w = if this.finished then ((w, this), is_ready) else run
  where
    polled : World × TaskPollOutcome
    polled = inner (call (poll_started this.task this.attempt) w)

    after : World
    after = call (poll_completed this.task this.attempt polled.1) polled.0

    next : ObservedTask
    next = record this { attempt = min (this.attempt + 1) u64_max }

    done : (World × ObservedTask) × Poll
    done = (
      (
        call (task_completed this.task) (complete_if this.completion after),
        record next { finished = true },
      ),
      is_ready,
    )

    run : (World × ObservedTask) × Poll
    run = elim polled.1 [ pending ↦ ((after, next), not_ready) | ready ↦ done | panicked ↦ done ]

-- The result of `TaskSet::spawn`: its assertion fails, or the set, the handle and the world.
unfoldable pub spawn : List ObservedTask → World → Option ((List ObservedTask × TaskHandle) × World)
unfolding call
spawn tasks w =
    if ltb (length tasks) max_model_tasks
    then some (
      (
        tasks
            ++ (record {
              task = length tasks;
              completion = some (length tasks);
              attempt = 0;
              finished = false;
            }
                ∷ []),
        record { task = length tasks; requested = false; resolved = false },
      ),
      call (task_registered (length tasks))
          (record w { completions = insert (length tasks) default_completion w.completions }),
    )
    else none

-- `ObservedTask::without_completion`.
unfoldable pub without_completion : ℕ → ObservedTask
without_completion task = record { task = task; completion = none; attempt = 0; finished = false }
