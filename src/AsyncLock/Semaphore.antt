-- ===== src/AsyncLock/Semaphore.antt =====
-- crates/laplace-model-rt/src/async_semaphore.rs.
--
-- The wrapped `tokio::sync::Semaphore` is not code of the crate: what a call of it returns is an
-- argument (`Polled` for a poll of its acquire future, a `Bool` for a try). The flag
-- `created_reported`, which a semaphore shares with its futures, is passed along with the hook.
use laplace.Prelude.{ℕ, Bool, true, false, ◌&&◌, not, Option, none, some, if◌then◌else◌}
use laplace.AsyncLock.Calls.{
  semaphore_permits, requested, acquired, released, waiter_dropped, semaphore_created,
  permits_added, Hook, report,
}

-- What the parts of one semaphore share.
pub record Shared : Type 0 where
  pub hook : Hook
  pub created_reported : Bool

pub record ModelAsyncSemaphore : Type 0 where
  pub resource : ℕ
  pub initial_permits : ℕ

-- `hook_with_created`, where the caller makes its report on the hook that is returned.
unfoldable pub hook_with_created : ℕ → ℕ → Shared → Shared
hook_with_created resource initial_permits s = elim s.hook [
  | none ↦ s
  | some log ↦ record {
    hook =
        if s.created_reported
        then some log
        else report (semaphore_created resource initial_permits) (some log);
    created_reported = true;
  }
]

-- `Poll::Pending`, `Poll::Ready(Ok(_))` or `Poll::Ready(Err(_))`.
pub data Polled : Type 0 where
  pending granted closed : Polled

pub record ModelSemaphoreAcquire : Type 0 where
  pub resource : ℕ
  pub waiter : ℕ
  pub permits : ℕ
  pub requested_emitted : Bool
  pub resolved : Bool
  pub initial_permits : ℕ

-- `inner` is `some` until the permit is forgotten.
pub record ModelSemaphorePermit : Type 0 where
  pub inner : Bool
  pub resource : ℕ
  pub waiter : ℕ
  pub permits : ℕ

unfoldable pub add_permits : ModelAsyncSemaphore → ℕ → Shared → Shared
unfolding hook_with_created
add_permits this n s =
    let s' = hook_with_created this.resource this.initial_permits s in
    record s' { hook = report (permits_added this.resource n) s'.hook }

-- With the id that `next_async_lock_waiter_id` gives.
unfoldable pub acquire_many : ModelAsyncSemaphore → ℕ → ℕ → ModelSemaphoreAcquire
acquire_many this n waiter = record {
  resource = this.resource;
  waiter = waiter;
  permits = n;
  requested_emitted = false;
  resolved = false;
  initial_permits = this.initial_permits;
}

unfoldable pub acquire : ModelAsyncSemaphore → ℕ → ModelSemaphoreAcquire
unfolding acquire_many
acquire this waiter = acquire_many this 1 waiter

unfoldable pub try_acquire_many :
    ModelAsyncSemaphore → ℕ → ℕ → Bool → Shared → Shared × Option ModelSemaphorePermit
unfolding hook_with_created
try_acquire_many this n waiter available s =
    let s' = hook_with_created this.resource this.initial_permits s in
    if available
    then (
      record s' { hook = report (acquired this.resource waiter (semaphore_permits n)) s'.hook },
      some (record { inner = true; resource = this.resource; waiter = waiter; permits = n }),
    )
    else (s, none)

unfoldable pub try_acquire :
    ModelAsyncSemaphore → ℕ → Bool → Shared → Shared × Option ModelSemaphorePermit
unfolding try_acquire_many
try_acquire this waiter available s = try_acquire_many this 1 waiter available s

-- What a poll of the wrapper returns.
pub data Outcome : Type 0 where
  pending : Outcome
  permit : ModelSemaphorePermit → Outcome
  closed : Outcome

unfoldable pub poll :
    Polled → ModelSemaphoreAcquire → Shared → (ModelSemaphoreAcquire × Shared) × Outcome
unfolding hook_with_created
poll pending this s =
    let s' = hook_with_created this.resource this.initial_permits s in
    if this.requested_emitted then ((this, s), Outcome.pending) else (
      (
        record this { requested_emitted = true },
        record s' {
          hook =
              report (requested this.resource this.waiter (semaphore_permits this.permits)) s'.hook;
        },
      ),
      Outcome.pending,
    )
poll granted this s =
    let s' = hook_with_created this.resource this.initial_permits s in
    (
      (
        record this { resolved = true },
        record s' {
          hook =
              report (acquired this.resource this.waiter (semaphore_permits this.permits)) s'.hook;
        },
      ),
      permit (record {
        inner = true;
        resource = this.resource;
        waiter = this.waiter;
        permits = this.permits;
      }),
    )
poll closed this s = ((record this { resolved = true }, s), Outcome.closed)

-- `Drop for ModelSemaphoreAcquire`.
unfoldable pub drop_acquire : ModelSemaphoreAcquire → Shared → Shared
drop_acquire this s =
    if this.requested_emitted && not this.resolved
    then record s { hook = report (waiter_dropped this.resource this.waiter) s.hook }
    else s

-- `Drop for ModelSemaphorePermit`.
unfoldable pub drop_permit : ModelSemaphorePermit → Shared → Shared
drop_permit this s =
    if this.inner
    then record s {
      hook = report (released this.resource this.waiter (semaphore_permits this.permits)) s.hook;
    }
    else s

-- `forget` empties the permit, which is then dropped.
unfoldable pub forget : ModelSemaphorePermit → Shared → Shared
unfolding drop_permit
forget this s = drop_permit (record this { inner = false }) s
