-- ===== src/Scenarios/Hooks.antt =====
-- A run with a resource that has its id at once and one that gets it later.
use laplace.Prelude.{ℕ, ◌≤◌, ◌<◌, ◌^◌, ◌+◌, ◌≡◌, refl, some, List, [], ◌∷◌, arith}
use laplace.Hooks.Counters.{
  Ids, next_native_dynamic_task_id, native_dynamic_task_id_base, initial_ids,
}
use laplace.Hooks.Fresh.{Run, Op, eager, lazy, ask, next_native_dynamic_task_id-reserved}

abbrev ops : List Op
ops = lazy 7 ∷ eager 4 ∷ ask 4 ∷ []

abbrev ids_from : ℕ → Ids
ids_from n = record initial_ids { next_async_lock_resource = n }

abbrev run : Run
run = record {
  ids = ids_from 2;
  resources = (7, record { cell = 0 }) ∷ (4, record { cell = 1 }) ∷ [];
}

abbrev after_dynamic : ℕ → Ids
after_dynamic n = record initial_ids { next_native_dynamic_task = native_dynamic_task_id_base + n }

first_dynamic :
    next_native_dynamic_task_id initial_ids ≡ some (native_dynamic_task_id_base, after_dynamic 1)
unfolding next_native_dynamic_task_id
first_dynamic = refl

second_dynamic :
    next_native_dynamic_task_id (after_dynamic 1)
    ≡ some (native_dynamic_task_id_base + 1, after_dynamic 2)
unfolding next_native_dynamic_task_id
second_dynamic = refl

next_native_dynamic_task_id-reserved_example :
    (16 < native_dynamic_task_id_base)
    × (native_dynamic_task_id_base < native_dynamic_task_id_base + 1)
    × (native_dynamic_task_id_base + 1 < 2 ^ 64)
    × (native_dynamic_task_id_base ≤ (after_dynamic 2).next_native_dynamic_task)
next_native_dynamic_task_id-reserved_example =
    next_native_dynamic_task_id-reserved initial_ids (after_dynamic 1) (after_dynamic 2)
      native_dynamic_task_id_base (native_dynamic_task_id_base + 1) (ground arith) first_dynamic
      second_dynamic
