-- ===== src/Hooks/Counters.antt =====
-- crates/laplace-model-rt/src/hooks.rs: the counters of ids, and the lazily assigned resource ids.
--
-- The counters are fields of `Ids`. An operation that allocates returns `none` where the source
-- panics because a counter's 64 bits are used up. The model drives a run from one thread, so the
-- `compare_exchange` of `AsyncResourceId::get` always wins.
use laplace.Prelude.{u64_max, ℕ, ◌+◌, ◌^◌, Option, none, some, ltb, ◌==◌, if◌then◌else◌}

-- `NATIVE_DYNAMIC_TASK_ID_BASE`.
abbrev pub native_dynamic_task_id_base : ℕ
native_dynamic_task_id_base = 2 ^ 63

pub record Ids : Type 0 where
  pub next_lock_resource : ℕ
  pub next_native_dynamic_task : ℕ
  pub next_async_lock_resource : ℕ
  pub next_async_lock_waiter : ℕ

abbrev pub initial_ids : Ids
initial_ids = record {
  next_lock_resource = 1;
  next_native_dynamic_task = native_dynamic_task_id_base;
  next_async_lock_resource = 1;
  next_async_lock_waiter = 1;
}

-- `fetch_update(|current| current.checked_add(1))`: the old value and the new one.
unfoldable pub fetch_next : ℕ → Option (ℕ × ℕ)
fetch_next current = if ltb current u64_max then some (current, current + 1) else none

unfoldable pub next_native_dynamic_task_id : Ids → Option (ℕ × Ids)
unfolding fetch_next
next_native_dynamic_task_id ids = elim (fetch_next ids.next_native_dynamic_task) [
  | none ↦ none
  | some (id, n) ↦ some (id, record ids { next_native_dynamic_task = n })
]

unfoldable pub reset_model_mutex_ids_for_model : Ids → Ids
reset_model_mutex_ids_for_model ids = record ids { next_lock_resource = 1 }

unfoldable pub next_lock_resource_id : Ids → Option (ℕ × Ids)
unfolding fetch_next
next_lock_resource_id ids = elim (fetch_next ids.next_lock_resource) [
  | none ↦ none
  | some (id, n) ↦ some (id, record ids { next_lock_resource = n })
]

unfoldable pub reset_model_async_ids_for_model : Ids → Ids
reset_model_async_ids_for_model ids = record ids {
  next_async_lock_resource = 1;
  next_async_lock_waiter = 1;
}

unfoldable pub next_async_lock_resource_id : Ids → Option (ℕ × Ids)
unfolding fetch_next
next_async_lock_resource_id ids = elim (fetch_next ids.next_async_lock_resource) [
  | none ↦ none
  | some (id, n) ↦ some (id, record ids { next_async_lock_resource = n })
]

unfoldable pub next_async_lock_waiter_id : Ids → Option (ℕ × Ids)
unfolding fetch_next
next_async_lock_waiter_id ids = elim (fetch_next ids.next_async_lock_waiter) [
  | none ↦ none
  | some (id, n) ↦ some (id, record ids { next_async_lock_waiter = n })
]

-- The atomic of an `AsyncResourceId`; 0 is not assigned yet.
pub record AsyncResourceId : Type 0 where
  pub cell : ℕ

unfoldable pub new_eager : Ids → Option (AsyncResourceId × Ids)
unfolding next_async_lock_resource_id
new_eager ids = elim (next_async_lock_resource_id ids) [
  | none ↦ none
  | some (id, ids') ↦ some (record { cell = id }, ids')
]

unfoldable pub new_lazy : AsyncResourceId
new_lazy = record { cell = 0 }

-- `AsyncResourceId::get`: the id, and the cell and the counters afterwards.
unfoldable pub get : AsyncResourceId → Ids → Option (ℕ × AsyncResourceId × Ids)
unfolding next_async_lock_resource_id
get this ids =
    if this.cell == 0
    then elim (next_async_lock_resource_id ids) [
      | none ↦ none
      | some (allocated, ids') ↦ some (allocated, record { cell = allocated }, ids')
    ]
    else some (this.cell, this, ids)
