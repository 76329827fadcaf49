-- ===== src/AsyncLock/Calls.antt =====
-- crates/laplace-model-rt/src/hooks.rs: `AsyncAcquireKind` and the calls of an `AsyncLockHook`.
use laplace.Prelude.{ℕ, Option, none, some, List, [], ◌∷◌, ◌++◌}

pub data AsyncAcquireKind : Type 0 where
  mutex rw_read rw_write : AsyncAcquireKind
  semaphore_permits : (permits : ℕ) → AsyncAcquireKind

pub data LockCall : Type 0 where
  requested acquired released : (resource waiter : ℕ) (kind : AsyncAcquireKind) → LockCall
  waiter_dropped : (resource waiter : ℕ) → LockCall
  semaphore_created : (resource permits : ℕ) → LockCall
  permits_added : (resource n : ℕ) → LockCall

-- The installed hook, as the calls that were made on it.
abbrev pub Hook : Type 0
Hook = Option (List LockCall)

abbrev pub report : LockCall → Hook → Hook
report c none = none
report c (some log) = some (log ++ (c ∷ []))
