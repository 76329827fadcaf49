-- ===== src/Notify/Waiters.antt =====
-- crates/laplace-model-rt/src/async_notify.rs, and the calls of hooks.rs's `AsyncNotifyHook`.
--
-- The wrapped `tokio::sync::Notify` is not code of the crate: whether a poll of its future is ready
-- is an argument, and the ids, which the counters give, are arguments too.
use laplace.Prelude.{
  ℕ, Bool, true, false, ◌&&◌, not, Option, none, some, List, [], ◌∷◌, ◌++◌, if◌then◌else◌,
}

pub data NotifyCall : Type 0 where
  wait_requested wait_resolved waiter_dropped : (resource waiter : ℕ) → NotifyCall
  notified_one notified_waiters : (resource : ℕ) → NotifyCall

-- The installed hook, as the calls that were made on it.
abbrev pub NotifyHook : Type 0
NotifyHook = Option (List NotifyCall)

abbrev pub notify_hook : NotifyCall → NotifyHook → NotifyHook
notify_hook c none = none
notify_hook c (some log) = some (log ++ (c ∷ []))

pub record ModelNotified : Type 0 where
  pub resource : ℕ
  pub waiter : ℕ
  pub requested_emitted : Bool
  pub resolved : Bool

unfoldable pub notified : (resource waiter : ℕ) → ModelNotified
notified resource waiter = record {
  resource = resource;
  waiter = waiter;
  requested_emitted = false;
  resolved = false;
}

unfoldable pub notify_one : (resource : ℕ) → NotifyHook → NotifyHook
notify_one resource hook = notify_hook (notified_one resource) hook

unfoldable pub notify_waiters : (resource : ℕ) → NotifyHook → NotifyHook
notify_waiters resource hook = notify_hook (notified_waiters resource) hook

-- `ModelNotified::poll`; whether it is ready is the argument, and the result is that too.
unfoldable pub poll_notified : Bool → ModelNotified → NotifyHook → ModelNotified × NotifyHook
poll_notified false this hook = if this.requested_emitted then (this, hook) else (
  record this { requested_emitted = true },
  notify_hook (wait_requested this.resource this.waiter) hook,
)
poll_notified true this hook =
    (record this { resolved = true }, notify_hook (wait_resolved this.resource this.waiter) hook)

-- `Drop for ModelNotified`.
unfoldable pub drop_notified : ModelNotified → NotifyHook → NotifyHook
drop_notified this hook =
    if this.requested_emitted && not this.resolved
    then notify_hook (waiter_dropped this.resource this.waiter) hook
    else hook
