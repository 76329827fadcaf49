-- ===== src/TaskSet/Spawning.antt =====
-- The limit of a task set.
use laplace.Prelude.{
  ℕ, suc, ◌+◌, ◌<◌, ◌≤◌, ◌≡◌, ◌⊎◌, inl, inr, refl, false, none, some, List, [], ◌∷◌, ◌++◌, insert,
  lookup-insert, length, length-append, ltb, ltb→lt, Bool-cases, arith,
}
use laplace.TaskSet.Tasks.{
  TaskCall, task_registered, default_completion, World, state_of, TaskHandle, ObservedTask, spawn,
  call,
}

state_of-call : (k : ℕ) (c : TaskCall) (w : World) → state_of k (call c w) ≡ state_of k w
unfolding state_of call
state_of-call k c w = ground arith

-- The tasks of a set are numbered from `n` on, each with the cell of its own number.
abbrev pub Numbered : ℕ → List ObservedTask → Type 0
Numbered n [] = Unit {0}
Numbered n (t ∷ ts) = (t.task ≡ n) × (t.completion ≡ some n) × Numbered (suc n) ts

Numbered-append_one :
    (n : ℕ) (ts : List ObservedTask) (t : ObservedTask)
    → Numbered n ts
    → t.task ≡ n + length ts
    → t.completion ≡ some (n + length ts)
    → Numbered n (ts ++ (t ∷ []))
Numbered-append_one n [] t k e c = (omega arith, ground arith, tt)
Numbered-append_one n (x ∷ ts) t (a, b, k) e c =
    (a, b, Numbered-append_one (suc n) ts t k (omega arith) (ground arith))

-- A set takes up to sixteen tasks: it refuses the next one, and below the limit a new task gets the
-- number of tasks before it, as its id and its handle's, and its completion is not finished.
pub spawn_lem :
    (tasks : List ObservedTask) (w : World)
    → Numbered 0 tasks
    → ((16 ≤ length tasks) × (spawn tasks w ≡ none))
      ⊎ ((length tasks < 16)
          × ((r : (List ObservedTask × TaskHandle) × World) × (spawn tasks w ≡ some r)
              × Numbered 0 r.0.0
              × (length r.0.0 ≡ suc (length tasks))
              × (r.0.1.task ≡ length tasks)
              × ((state_of r.0.1.task r.1).finished ≡ false)))
unfolding spawn state_of
spawn_lem tasks w k = elim (Bool-cases (ltb (length tasks) 16)) [
  | inr full ↦ inl (ground arith, ground arith)
  | inl room ↦ inr (
    ltb→lt (length tasks) 16 room,
    (
      ((tasks ++ (new ∷ []), handle), call (task_registered (length tasks)) made),
      ground arith,
      Numbered-append_one 0 tasks new k (omega arith) (ground arith),
      omega (arith, length-append tasks (new ∷ [])),
      refl,
      ground (
        arith,
        state_of-call (length tasks) (task_registered (length tasks)) made,
        lookup-insert (length tasks) (length tasks) default_completion w.completions,
      ),
    ),
  )
]
  where
    new : ObservedTask
    new = record {
      task = length tasks;
      completion = some (length tasks);
      attempt = 0;
      finished = false;
    }

    handle : TaskHandle
    handle = record { task = length tasks; requested = false; resolved = false }

    made : World
    made = record w { completions = insert (length tasks) default_completion w.completions }
