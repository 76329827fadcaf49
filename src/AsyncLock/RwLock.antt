-- ===== src/AsyncLock/RwLock.antt =====
-- crates/laplace-model-rt/src/async_rwlock.rs.
--
-- The wrapped `tokio::sync::RwLock` is not code of the crate: whether a poll of one of its futures is
-- ready, and whether a try succeeds, are arguments. The resource id, which the source asks for with
-- each call, and the waiter id are arguments too.
use laplace.Prelude.{ℕ, Bool, true, false, ◌&&◌, not, Option, none, some, if◌then◌else◌}
use laplace.AsyncLock.Calls.{
  rw_read, rw_write, requested, acquired, released, waiter_dropped, Hook, report,
}

pub record ModelAsyncRead : Type 0 where
  pub resource : ℕ
  pub waiter : ℕ
  pub requested_emitted : Bool
  pub acquired : Bool

pub record ModelAsyncRwLockReadGuard : Type 0 where
  pub resource : ℕ
  pub waiter : ℕ

-- `ModelAsyncRwLock::read`.
unfoldable pub read : ℕ → ℕ → ModelAsyncRead
read resource waiter = record {
  resource = resource;
  waiter = waiter;
  requested_emitted = false;
  acquired = false;
}

unfoldable pub try_read : ℕ → ℕ → Bool → Hook → Hook × Option ModelAsyncRwLockReadGuard
try_read resource waiter free hook =
    if free
    then (
      report (acquired resource waiter rw_read) hook,
      some (record { resource = resource; waiter = waiter }),
    )
    else (hook, none)

-- `ModelAsyncRead::poll`.
unfoldable pub poll_read :
    Bool → ModelAsyncRead → Hook → (ModelAsyncRead × Hook) × Option ModelAsyncRwLockReadGuard
poll_read false this hook = if this.requested_emitted then ((this, hook), none) else (
  (
    record this { requested_emitted = true },
    report (requested this.resource this.waiter rw_read) hook,
  ),
  none,
)
poll_read true this hook = (
  (record this { acquired = true }, report (acquired this.resource this.waiter rw_read) hook),
  some (record { resource = this.resource; waiter = this.waiter }),
)

-- `Drop for ModelAsyncRead`.
unfoldable pub drop_read : ModelAsyncRead → Hook → Hook
drop_read this hook =
    if this.requested_emitted && not this.acquired
    then report (waiter_dropped this.resource this.waiter) hook
    else hook

-- `Drop for ModelAsyncRwLockReadGuard`.
unfoldable pub drop_read_guard : ModelAsyncRwLockReadGuard → Hook → Hook
drop_read_guard this hook = report (released this.resource this.waiter rw_read) hook

pub record ModelAsyncWrite : Type 0 where
  pub resource : ℕ
  pub waiter : ℕ
  pub requested_emitted : Bool
  pub acquired : Bool

pub record ModelAsyncRwLockWriteGuard : Type 0 where
  pub resource : ℕ
  pub waiter : ℕ

-- `ModelAsyncRwLock::write`.
unfoldable pub write : ℕ → ℕ → ModelAsyncWrite
write resource waiter = record {
  resource = resource;
  waiter = waiter;
  requested_emitted = false;
  acquired = false;
}

unfoldable pub try_write : ℕ → ℕ → Bool → Hook → Hook × Option ModelAsyncRwLockWriteGuard
try_write resource waiter free hook =
    if free
    then (
      report (acquired resource waiter rw_write) hook,
      some (record { resource = resource; waiter = waiter }),
    )
    else (hook, none)

-- `ModelAsyncWrite::poll`.
unfoldable pub poll_write :
    Bool → ModelAsyncWrite → Hook → (ModelAsyncWrite × Hook) × Option ModelAsyncRwLockWriteGuard
poll_write false this hook = if this.requested_emitted then ((this, hook), none) else (
  (
    record this { requested_emitted = true },
    report (requested this.resource this.waiter rw_write) hook,
  ),
  none,
)
poll_write true this hook = (
  (record this { acquired = true }, report (acquired this.resource this.waiter rw_write) hook),
  some (record { resource = this.resource; waiter = this.waiter }),
)

-- `Drop for ModelAsyncWrite`.
unfoldable pub drop_write : ModelAsyncWrite → Hook → Hook
drop_write this hook =
    if this.requested_emitted && not this.acquired
    then report (waiter_dropped this.resource this.waiter) hook
    else hook

-- `Drop for ModelAsyncRwLockWriteGuard`.
unfoldable pub drop_write_guard : ModelAsyncRwLockWriteGuard → Hook → Hook
drop_write_guard this hook = report (released this.resource this.waiter rw_write) hook
