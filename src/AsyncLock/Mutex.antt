-- ===== src/AsyncLock/Mutex.antt =====
-- crates/laplace-model-rt/src/async_mutex.rs.
--
-- The wrapped `tokio::sync::Mutex` is not code of the crate: whether a poll of its lock future is
-- ready, and whether a try succeeds, are arguments.
use laplace.Prelude.{ℕ, Bool, true, false, ◌&&◌, not, Option, none, some, if◌then◌else◌}
use laplace.AsyncLock.Calls.{mutex, requested, acquired, released, waiter_dropped, Hook, report}

pub record ModelAsyncLock : Type 0 where
  pub resource : ℕ
  pub waiter : ℕ
  pub requested_emitted : Bool
  pub acquired : Bool

pub record ModelAsyncMutexGuard : Type 0 where
  pub resource : ℕ
  pub waiter : ℕ

-- `ModelAsyncMutex::lock`, with the ids that it asks for.
unfoldable pub lock : ℕ → ℕ → ModelAsyncLock
lock resource waiter = record {
  resource = resource;
  waiter = waiter;
  requested_emitted = false;
  acquired = false;
}

unfoldable pub try_lock : ℕ → ℕ → Bool → Hook → Hook × Option ModelAsyncMutexGuard
try_lock resource waiter free hook =
    if free
    then (
      report (acquired resource waiter mutex) hook,
      some (record { resource = resource; waiter = waiter }),
    )
    else (hook, none)

-- `ModelAsyncLock::poll`.
unfoldable pub poll_lock :
    Bool → ModelAsyncLock → Hook → (ModelAsyncLock × Hook) × Option ModelAsyncMutexGuard
poll_lock false this hook = if this.requested_emitted then ((this, hook), none) else (
  (
    record this { requested_emitted = true },
    report (requested this.resource this.waiter mutex) hook,
  ),
  none,
)
poll_lock true this hook = (
  (record this { acquired = true }, report (acquired this.resource this.waiter mutex) hook),
  some (record { resource = this.resource; waiter = this.waiter }),
)

-- `Drop for ModelAsyncLock`.
unfoldable pub drop_lock : ModelAsyncLock → Hook → Hook
drop_lock this hook =
    if this.requested_emitted && not this.acquired
    then report (waiter_dropped this.resource this.waiter) hook
    else hook

-- `Drop for ModelAsyncMutexGuard`.
unfoldable pub drop_guard : ModelAsyncMutexGuard → Hook → Hook
drop_guard this hook = report (released this.resource this.waiter mutex) hook
