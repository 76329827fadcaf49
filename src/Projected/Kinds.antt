-- ===== src/Projected/Kinds.antt =====
-- crates/laplace-probe-sdk/src/async_hooks.rs: the conversions of the kinds of hooks.rs to those of
-- events, and the broadcast kinds and calls of hooks.rs.
use laplace.Prelude.{ℕ, Option}
use laplace.Event.{
  AsyncAcquireKind as EventAcquireKind, AsyncChannelKind as EventChannelKind,
  AsyncChannelSide as EventChannelSide, AsyncChannelOp as EventChannelOp,
  AsyncChannelOutcome as EventChannelOutcome, BroadcastOp, BroadcastOutcome,
}
use laplace.AsyncLock.Calls.{AsyncAcquireKind}
use laplace.Oneshot.Endpoints.{
  AsyncChannelKind, AsyncChannelSide, AsyncChannelOp, AsyncChannelOutcome,
}

pub data AsyncBroadcastOp : Type 0 where
  send recv try_recv resubscribe : AsyncBroadcastOp

pub data AsyncBroadcastOutcome : Type 0 where
  ok : (receivers : ℕ) → AsyncBroadcastOutcome
  closed empty : AsyncBroadcastOutcome
  lagged : (missed : ℕ) → AsyncBroadcastOutcome

-- The calls of an `AsyncBroadcastHook`.
pub data BroadcastCall : Type 0 where
  broadcast_created : (resource capacity : ℕ) → BroadcastCall
  subscribed : (resource receiver_id at_seq : ℕ) → BroadcastCall
  op_requested :
      (resource op : ℕ) (receiver_id : Option ℕ) (kind : AsyncBroadcastOp) → BroadcastCall
  op_resolved :
      (resource op : ℕ) (receiver_id : Option ℕ) (kind : AsyncBroadcastOp)
      (outcome : AsyncBroadcastOutcome)
      → BroadcastCall
  op_dropped : (resource op : ℕ) → BroadcastCall
  endpoint_cloned endpoint_dropped :
      (resource : ℕ) (side : AsyncChannelSide) (receiver_id : Option ℕ) → BroadcastCall

unfoldable pub acquire_kind : AsyncAcquireKind → EventAcquireKind
acquire_kind AsyncAcquireKind.mutex = EventAcquireKind.mutex
acquire_kind AsyncAcquireKind.rw_read = EventAcquireKind.rw_read
acquire_kind AsyncAcquireKind.rw_write = EventAcquireKind.rw_write
acquire_kind (AsyncAcquireKind.semaphore_permits permits) =
    EventAcquireKind.semaphore_permits permits

unfoldable pub channel_kind : AsyncChannelKind → EventChannelKind
channel_kind (AsyncChannelKind.mpsc_bounded capacity) = EventChannelKind.mpsc_bounded capacity
channel_kind AsyncChannelKind.mpsc_unbounded = EventChannelKind.mpsc_unbounded
channel_kind AsyncChannelKind.oneshot = EventChannelKind.oneshot
channel_kind AsyncChannelKind.watch = EventChannelKind.watch

unfoldable pub channel_side : AsyncChannelSide → EventChannelSide
channel_side AsyncChannelSide.sender = EventChannelSide.sender
channel_side AsyncChannelSide.receiver = EventChannelSide.receiver

unfoldable pub channel_op : AsyncChannelOp → EventChannelOp
channel_op AsyncChannelOp.send = EventChannelOp.send
channel_op AsyncChannelOp.recv = EventChannelOp.recv
channel_op AsyncChannelOp.changed = EventChannelOp.changed

unfoldable pub channel_outcome : AsyncChannelOutcome → EventChannelOutcome
channel_outcome AsyncChannelOutcome.ok = EventChannelOutcome.ok
channel_outcome AsyncChannelOutcome.closed = EventChannelOutcome.closed
channel_outcome AsyncChannelOutcome.empty = EventChannelOutcome.empty
channel_outcome AsyncChannelOutcome.full = EventChannelOutcome.full

unfoldable pub broadcast_op : AsyncBroadcastOp → BroadcastOp
broadcast_op AsyncBroadcastOp.send = BroadcastOp.send
broadcast_op AsyncBroadcastOp.recv = BroadcastOp.recv
broadcast_op AsyncBroadcastOp.try_recv = BroadcastOp.try_recv
broadcast_op AsyncBroadcastOp.resubscribe = BroadcastOp.resubscribe

unfoldable pub broadcast_outcome : AsyncBroadcastOutcome → BroadcastOutcome
broadcast_outcome (AsyncBroadcastOutcome.ok receivers) = BroadcastOutcome.ok receivers
broadcast_outcome AsyncBroadcastOutcome.closed = BroadcastOutcome.closed
broadcast_outcome AsyncBroadcastOutcome.empty = BroadcastOutcome.empty
broadcast_outcome (AsyncBroadcastOutcome.lagged missed) = BroadcastOutcome.lagged missed
