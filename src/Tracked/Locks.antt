-- ===== src/Tracked/Locks.antt =====
-- crates/laplace-probe-sdk/src/tracked.rs, tracked_std.rs, tracked_rwlock.rs, tracked_std_rwlock.rs and
-- tracked_parking_lot_rwlock.rs: the tracked locks and their guards.
--
-- Each acquisition asks for the logical id of its OS thread, waits for the wrapped lock, and goes on
-- as here, with that id; it returns a guard that keeps the id. A drop is here up to where the wrapped
-- guard, a field, is dropped in its turn. `os` is the OS thread that runs the code.
use laplace.Prelude.{ℕ, String, Bool, true, false, Option, none, some}
use laplace.Event.{
  lock_acquired, lock_released, rw_lock_read_acquired, rw_lock_read_released,
  rw_lock_write_acquired, rw_lock_write_released,
}
use laplace.Session.Sinks.{Process, emit}

-- A guard, without the wrapped one.
pub record Guard : Type 0 where
  pub resource_name : String
  pub thread_id : ℕ

module _ {J : Type 0} where
  unfoldable pub lock_mutex :
      (os thread_id : ℕ) (resource_name : String) → Process J → Guard × Process J
  unfolding emit
  lock_mutex os thread_id resource_name s = (
    record { resource_name = resource_name; thread_id = thread_id },
    emit os (lock_acquired thread_id resource_name) s,
  )

  unfoldable pub drop_guard_of_mutex : (os : ℕ) → Guard → Process J → Process J
  unfolding emit
  drop_guard_of_mutex os this s = emit os (lock_released this.thread_id this.resource_name) s

  unfoldable pub lock_std_mutex :
      (os thread_id : ℕ) (resource_name : String) → Process J → Guard × Process J
  unfolding emit
  lock_std_mutex os thread_id resource_name s = (
    record { resource_name = resource_name; thread_id = thread_id },
    emit os (lock_acquired thread_id resource_name) s,
  )

  unfoldable pub drop_guard_of_std_mutex : (os : ℕ) → Guard → Process J → Process J
  unfolding emit
  drop_guard_of_std_mutex os this s = emit os (lock_released this.thread_id this.resource_name) s

  unfoldable pub read_rw_lock :
      (os thread_id : ℕ) (resource_name : String) → Process J → Guard × Process J
  unfolding emit
  read_rw_lock os thread_id resource_name s = (
    record { resource_name = resource_name; thread_id = thread_id },
    emit os (rw_lock_read_acquired thread_id resource_name) s,
  )

  unfoldable pub write_rw_lock :
      (os thread_id : ℕ) (resource_name : String) → Process J → Guard × Process J
  unfolding emit
  write_rw_lock os thread_id resource_name s = (
    record { resource_name = resource_name; thread_id = thread_id },
    emit os (rw_lock_write_acquired thread_id resource_name) s,
  )

  unfoldable pub drop_read_guard_of_rw_lock : (os : ℕ) → Guard → Process J → Process J
  unfolding emit
  drop_read_guard_of_rw_lock os this s =
      emit os (rw_lock_read_released this.thread_id this.resource_name) s

  unfoldable pub drop_write_guard_of_rw_lock : (os : ℕ) → Guard → Process J → Process J
  unfolding emit
  drop_write_guard_of_rw_lock os this s =
      emit os (rw_lock_write_released this.thread_id this.resource_name) s

  unfoldable pub read_std_rw_lock :
      (os thread_id : ℕ) (resource_name : String) → Process J → Guard × Process J
  unfolding emit
  read_std_rw_lock os thread_id resource_name s = (
    record { resource_name = resource_name; thread_id = thread_id },
    emit os (rw_lock_read_acquired thread_id resource_name) s,
  )

  unfoldable pub write_std_rw_lock :
      (os thread_id : ℕ) (resource_name : String) → Process J → Guard × Process J
  unfolding emit
  write_std_rw_lock os thread_id resource_name s = (
    record { resource_name = resource_name; thread_id = thread_id },
    emit os (rw_lock_write_acquired thread_id resource_name) s,
  )

  unfoldable pub drop_read_guard_of_std_rw_lock : (os : ℕ) → Guard → Process J → Process J
  unfolding emit
  drop_read_guard_of_std_rw_lock os this s =
      emit os (rw_lock_read_released this.thread_id this.resource_name) s

  unfoldable pub drop_write_guard_of_std_rw_lock : (os : ℕ) → Guard → Process J → Process J
  unfolding emit
  drop_write_guard_of_std_rw_lock os this s =
      emit os (rw_lock_write_released this.thread_id this.resource_name) s

  unfoldable pub read_parking_lot_rw_lock :
      (os thread_id : ℕ) (resource_name : String) → Process J → Guard × Process J
  unfolding emit
  read_parking_lot_rw_lock os thread_id resource_name s = (
    record { resource_name = resource_name; thread_id = thread_id },
    emit os (rw_lock_read_acquired thread_id resource_name) s,
  )

  unfoldable pub write_parking_lot_rw_lock :
      (os thread_id : ℕ) (resource_name : String) → Process J → Guard × Process J
  unfolding emit
  write_parking_lot_rw_lock os thread_id resource_name s = (
    record { resource_name = resource_name; thread_id = thread_id },
    emit os (rw_lock_write_acquired thread_id resource_name) s,
  )

  unfoldable pub drop_read_guard_of_parking_lot_rw_lock : (os : ℕ) → Guard → Process J → Process J
  unfolding emit
  drop_read_guard_of_parking_lot_rw_lock os this s =
      emit os (rw_lock_read_released this.thread_id this.resource_name) s

  unfoldable pub drop_write_guard_of_parking_lot_rw_lock : (os : ℕ) → Guard → Process J → Process J
  unfolding emit
  drop_write_guard_of_parking_lot_rw_lock os this s =
      emit os (rw_lock_write_released this.thread_id this.resource_name) s

  -- `got` is whether the wrapped lock was free.
  unfoldable pub try_read_parking_lot_rw_lock :
      (got : Bool) (os thread_id : ℕ) (resource_name : String)
      → Process J
      → Option Guard × Process J
  unfolding emit
  try_read_parking_lot_rw_lock false os thread_id resource_name s = (none, s)
  try_read_parking_lot_rw_lock true os thread_id resource_name s = (
    some (record { resource_name = resource_name; thread_id = thread_id }),
    emit os (rw_lock_read_acquired thread_id resource_name) s,
  )

  unfoldable pub try_write_parking_lot_rw_lock :
      (got : Bool) (os thread_id : ℕ) (resource_name : String)
      → Process J
      → Option Guard × Process J
  unfolding emit
  try_write_parking_lot_rw_lock false os thread_id resource_name s = (none, s)
  try_write_parking_lot_rw_lock true os thread_id resource_name s = (
    some (record { resource_name = resource_name; thread_id = thread_id }),
    emit os (rw_lock_write_acquired thread_id resource_name) s,
  )
