-- ===== src/Hooks/Fresh.antt =====
-- Ids are fresh: no two resources of the async family share one.
use laplace.Prelude.{
  ℕ, ◌<◌, ◌≤◌, ◌^◌, ◌≡◌, ◌≢◌, Option, none, some, List, [], ◌∷◌, lookup, insert, arith,
}
use laplace.Hooks.Counters.{
  Ids, AsyncResourceId, get, new_eager, new_lazy, next_native_dynamic_task_id,
  native_dynamic_task_id_base, initial_ids,
}

-- The resources of a run, each known by its place among them.
pub record Run : Type 0 where
  pub ids : Ids
  pub resources : List (ℕ × AsyncResourceId)

-- What happens to resources: one is made with an id or without, or its id is asked for.
pub data Op : Type 0 where
  eager : (key : ℕ) → Op
  lazy : (key : ℕ) → Op
  ask : (key : ℕ) → Op

abbrev made : ℕ → List (ℕ × AsyncResourceId) → Option (AsyncResourceId × Ids) → Option Run
made key rs none = none
made key rs (some (r, ids)) = some (record { ids = ids; resources = insert key r rs })

abbrev asked : ℕ → List (ℕ × AsyncResourceId) → Option (ℕ × AsyncResourceId × Ids) → Option Run
asked key rs none = none
asked key rs (some (_, r, ids)) = some (record { ids = ids; resources = insert key r rs })

unfoldable pub perform : Op → Run → Option Run
perform (eager key) s = made key s.resources (new_eager s.ids)
perform (lazy key) s = some (record s { resources = insert key new_lazy s.resources })
perform (ask key) s = elim (lookup key s.resources) [
  | none ↦ some s
  | some r ↦ asked key s.resources (get r s.ids)
]

unfoldable pub perform_all : List Op → Run → Option Run
unfolding perform
perform_all [] s = some s
perform_all (o ∷ os) s = elim (perform o s) [ none ↦ none | some t ↦ perform_all os t ]

-- Ids that are assigned lie below the counter, and no two resources have one.
pub record Fresh (s : Run) : Type 0 where
  pub started : 0 < s.ids.next_async_lock_resource
  pub below :
      (k : ℕ) (r : AsyncResourceId)
      → lookup k s.resources ≡ some r
      → r.cell < s.ids.next_async_lock_resource
  pub apart :
      (k j : ℕ) (r q : AsyncResourceId)
      → lookup k s.resources ≡ some r
      → lookup j s.resources ≡ some q
      → r.cell ≡ q.cell
      → r.cell ≢ 0
      → k ≡ j

abbrev pub start : Run
start = record { ids = initial_ids; resources = [] }

-- A dynamic task never has the id of a task that was registered in a set, of which there are at
-- most sixteen, and two dynamic tasks that follow one another never have one id, as long as the
-- counter has not been put below its base.
pub next_native_dynamic_task_id-reserved :
    (ids ids' ids'' : Ids) (id other : ℕ)
    → native_dynamic_task_id_base ≤ ids.next_native_dynamic_task
    → next_native_dynamic_task_id ids ≡ some (id, ids')
    → next_native_dynamic_task_id ids' ≡ some (other, ids'')
    → (16 < id)
      × (id < other)
      × (other < 2 ^ 64)
      × (native_dynamic_task_id_base ≤ ids''.next_native_dynamic_task)
unfolding next_native_dynamic_task_id
next_native_dynamic_task_id-reserved ids ids' ids'' id other b e e' = ground arith
