-- ===== src/Projected/AsyncHooks.antt =====
-- crates/laplace-probe-sdk/src/async_hooks.rs: the five hooks. `os` is the OS thread that calls.
use laplace.Prelude.{ℕ}
use laplace.Event.{
  ProbeEvent, async_lock_requested, async_lock_acquired, async_lock_released,
  async_lock_waiter_dropped, async_semaphore_created, async_permits_added,
  async_notify_wait_requested, async_notify_wait_resolved, async_notify_one, async_notify_waiters,
  async_notify_waiter_dropped, async_channel_created, async_channel_op_requested,
  async_channel_op_resolved, async_channel_op_dropped, async_channel_endpoint_cloned,
  async_channel_endpoint_dropped, async_channel_closed, async_broadcast_created,
  async_broadcast_subscribed, async_broadcast_op_requested, async_broadcast_op_resolved,
  async_broadcast_op_dropped, async_broadcast_endpoint_cloned, async_broadcast_endpoint_dropped,
  async_cell_created, async_cell_load, async_cell_store,
}
use laplace.Session.Sinks.{Process, current_thread_id, emit}
use laplace.AsyncLock.Calls.{LockCall}
use laplace.Notify.Waiters.{NotifyCall}
use laplace.Oneshot.Endpoints.{ChannelCall}
use laplace.Cell.Swap.{CellCall}
use laplace.Projected.Kinds.{
  BroadcastCall, acquire_kind, channel_kind, channel_side, channel_op, channel_outcome,
  broadcast_op, broadcast_outcome,
}

module _ {J : Type 0} where
  -- An event under the logical id of the thread.
  unfoldable pub emit_as : (os : ℕ) → (ℕ → ProbeEvent J) → Process J → Process J
  emit_as os event s = let (s', thread_id) = current_thread_id os s in emit os (event thread_id) s'

  -- `ProbeAsyncLockHook`.
  abbrev pub lock_event : LockCall → (thread_id : ℕ) → ProbeEvent J
  lock_event (LockCall.requested resource waiter kind) t =
      async_lock_requested t resource waiter (acquire_kind kind)
  lock_event (LockCall.acquired resource waiter kind) t =
      async_lock_acquired t resource waiter (acquire_kind kind)
  lock_event (LockCall.released resource waiter kind) t =
      async_lock_released t resource waiter (acquire_kind kind)
  lock_event (LockCall.waiter_dropped resource waiter) t =
      async_lock_waiter_dropped t resource waiter
  lock_event (LockCall.semaphore_created resource permits) t =
      async_semaphore_created t resource permits
  lock_event (LockCall.permits_added resource n) t = async_permits_added t resource n

  -- `ProbeAsyncNotifyHook`.
  abbrev pub notify_event : NotifyCall → (thread_id : ℕ) → ProbeEvent J
  notify_event (NotifyCall.wait_requested resource waiter) t =
      async_notify_wait_requested t resource waiter
  notify_event (NotifyCall.wait_resolved resource waiter) t =
      async_notify_wait_resolved t resource waiter
  notify_event (NotifyCall.notified_one resource) t = async_notify_one t resource
  notify_event (NotifyCall.notified_waiters resource) t = async_notify_waiters t resource
  notify_event (NotifyCall.waiter_dropped resource waiter) t =
      async_notify_waiter_dropped t resource waiter

  -- `ProbeAsyncChannelHook`.
  abbrev pub channel_event : ChannelCall → (thread_id : ℕ) → ProbeEvent J
  channel_event (ChannelCall.channel_created channel kind) t =
      async_channel_created t channel (channel_kind kind)
  channel_event (ChannelCall.op_requested channel op kind) t =
      async_channel_op_requested t channel op (channel_op kind)
  channel_event (ChannelCall.op_resolved channel op kind outcome) t =
      async_channel_op_resolved t channel op (channel_op kind) (channel_outcome outcome)
  channel_event (ChannelCall.op_dropped channel op) t = async_channel_op_dropped t channel op
  channel_event (ChannelCall.endpoint_cloned channel side) t =
      async_channel_endpoint_cloned t channel (channel_side side)
  channel_event (ChannelCall.endpoint_dropped channel side) t =
      async_channel_endpoint_dropped t channel (channel_side side)
  channel_event (ChannelCall.channel_closed channel) t = async_channel_closed t channel

  -- `ProbeAsyncBroadcastHook`.
  abbrev pub broadcast_event : BroadcastCall → (thread_id : ℕ) → ProbeEvent J
  broadcast_event (BroadcastCall.broadcast_created resource capacity) t =
      async_broadcast_created t resource capacity
  broadcast_event (BroadcastCall.subscribed resource receiver_id at_seq) t =
      async_broadcast_subscribed t resource receiver_id at_seq
  broadcast_event (BroadcastCall.op_requested resource op receiver_id kind) t =
      async_broadcast_op_requested t resource op receiver_id (broadcast_op kind)
  broadcast_event (BroadcastCall.op_resolved resource op receiver_id kind outcome) t =
      async_broadcast_op_resolved t resource op receiver_id (broadcast_op kind)
        (broadcast_outcome outcome)
  broadcast_event (BroadcastCall.op_dropped resource op) t =
      async_broadcast_op_dropped t resource op
  broadcast_event (BroadcastCall.endpoint_cloned resource side receiver_id) t =
      async_broadcast_endpoint_cloned t resource (channel_side side) receiver_id
  broadcast_event (BroadcastCall.endpoint_dropped resource side receiver_id) t =
      async_broadcast_endpoint_dropped t resource (channel_side side) receiver_id

  -- `ProbeAsyncCellHook`.
  abbrev pub cell_event : CellCall → (thread_id : ℕ) → ProbeEvent J
  cell_event (CellCall.cell_created resource) t = async_cell_created t resource
  cell_event (CellCall.cell_load resource version) t = async_cell_load t resource version
  cell_event (CellCall.cell_store resource version) t = async_cell_store t resource version

  unfoldable pub probe_async_lock : (os : ℕ) → LockCall → Process J → Process J
  probe_async_lock os c s = emit_as os (lock_event c) s

  unfoldable pub probe_async_notify : (os : ℕ) → NotifyCall → Process J → Process J
  probe_async_notify os c s = emit_as os (notify_event c) s

  unfoldable pub probe_async_channel : (os : ℕ) → ChannelCall → Process J → Process J
  probe_async_channel os c s = emit_as os (channel_event c) s

  unfoldable pub probe_async_broadcast : (os : ℕ) → BroadcastCall → Process J → Process J
  probe_async_broadcast os c s = emit_as os (broadcast_event c) s

  unfoldable pub probe_async_cell : (os : ℕ) → CellCall → Process J → Process J
  probe_async_cell os c s = emit_as os (cell_event c) s
