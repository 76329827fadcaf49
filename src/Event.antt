-- ===== src/Event.antt =====
-- crates/laplace-probe-sdk/src/event.rs: the events that instrumented code reports to a probe
-- session, and the name of the resource that an event is about.
--
-- The metadata of a `custom` event is a value of serde_json's `Value`, a library type: it is the
-- parameter `J`. Unsigned integers are numbers, and texts are native texts.
use laplace.Prelude.{ℕ, String, Bool, Option, some, none}

pub data AsyncAcquireKind : Type 0 where
  mutex rw_read rw_write : AsyncAcquireKind
  semaphore_permits : (permits : ℕ) → AsyncAcquireKind

pub data AsyncChannelKind : Type 0 where
  mpsc_bounded : (capacity : ℕ) → AsyncChannelKind
  mpsc_unbounded oneshot watch : AsyncChannelKind

pub data AsyncChannelSide : Type 0 where
  sender receiver : AsyncChannelSide

pub data AsyncChannelOp : Type 0 where
  send recv changed : AsyncChannelOp

pub data AsyncChannelOutcome : Type 0 where
  ok closed empty full : AsyncChannelOutcome

pub data BroadcastOp : Type 0 where
  send recv try_recv resubscribe : BroadcastOp

pub data BroadcastOutcome : Type 0 where
  ok : (receivers : ℕ) → BroadcastOutcome
  closed empty : BroadcastOutcome
  lagged : (missed : ℕ) → BroadcastOutcome

pub data ProbeEvent (J : Type 0) : Type 0 where
  thread_blocked : (thread_id : ℕ) (blocked_on : String) → ProbeEvent J
  lock_acquired : (thread_id : ℕ) (resource : String) → ProbeEvent J
  lock_released : (thread_id : ℕ) (resource : String) → ProbeEvent J
  db_query : (query : String) (duration_us : ℕ) → ProbeEvent J
  http_request : (method : String) (path : String) (status_code : ℕ) → ProbeEvent J
  custom : (name : String) (metadata : J) → ProbeEvent J
  rw_lock_read_acquired : (thread_id : ℕ) (resource : String) → ProbeEvent J
  rw_lock_read_released : (thread_id : ℕ) (resource : String) → ProbeEvent J
  rw_lock_write_acquired : (thread_id : ℕ) (resource : String) → ProbeEvent J
  rw_lock_write_released : (thread_id : ℕ) (resource : String) → ProbeEvent J
  atomic_load : (thread_id : ℕ) (resource : String) → ProbeEvent J
  atomic_store : (thread_id : ℕ) (resource : String) → ProbeEvent J
  atomic_rmw : (thread_id : ℕ) (resource : String) → ProbeEvent J
  semaphore_acquired : (thread_id : ℕ) (resource : String) → ProbeEvent J
  semaphore_released : (thread_id : ℕ) (resource : String) → ProbeEvent J
  task_spawned :
      (task_id : ℕ) (parent_task_id : Option ℕ) (source_location : Option String) → ProbeEvent J
  task_polled : (task_id : ℕ) (poll_attempt_id : ℕ) → ProbeEvent J
  future_pending : (task_id : ℕ) (future_id : Option ℕ) (poll_attempt_id : ℕ) → ProbeEvent J
  future_ready : (task_id : ℕ) (future_id : Option ℕ) (poll_attempt_id : ℕ) → ProbeEvent J
  wake_issued : (source_task_id : Option ℕ) (target_task_id : ℕ) (waker_id : ℕ) → ProbeEvent J
  cancel_requested : (task_id : ℕ) → ProbeEvent J
  task_completed : (task_id : ℕ) → ProbeEvent J
  task_join_requested : (thread_id : ℕ) (joined_task_id : ℕ) → ProbeEvent J
  task_join_resolved : (thread_id : ℕ) (joined_task_id : ℕ) → ProbeEvent J
  notify_waiter_registered : (notify_id : ℕ) (task_id : ℕ) → ProbeEvent J
  notify_stored_permit : (notify_id : ℕ) (bit : Bool) → ProbeEvent J
  notify_wake_edge : (notify_id : ℕ) (source_task_id : Option ℕ) (target_task_id : ℕ) → ProbeEvent J
  notify_latest_waker : (notify_id : ℕ) (task_id : ℕ) (waker_id : ℕ) → ProbeEvent J
  notify_wake_coalesced : (notify_id : ℕ) → ProbeEvent J
  notify_waiter_completed : (notify_id : ℕ) (task_id : ℕ) → ProbeEvent J
  async_lock_requested :
      (thread_id : ℕ) (resource : ℕ) (waiter : ℕ) (kind : AsyncAcquireKind) → ProbeEvent J
  async_lock_acquired :
      (thread_id : ℕ) (resource : ℕ) (waiter : ℕ) (kind : AsyncAcquireKind) → ProbeEvent J
  async_lock_released :
      (thread_id : ℕ) (resource : ℕ) (waiter : ℕ) (kind : AsyncAcquireKind) → ProbeEvent J
  async_lock_waiter_dropped : (thread_id : ℕ) (resource : ℕ) (waiter : ℕ) → ProbeEvent J
  async_semaphore_created : (thread_id : ℕ) (resource : ℕ) (permits : ℕ) → ProbeEvent J
  async_permits_added : (thread_id : ℕ) (resource : ℕ) (n : ℕ) → ProbeEvent J
  async_notify_wait_requested : (thread_id : ℕ) (resource : ℕ) (waiter : ℕ) → ProbeEvent J
  async_notify_wait_resolved : (thread_id : ℕ) (resource : ℕ) (waiter : ℕ) → ProbeEvent J
  async_notify_one : (thread_id : ℕ) (resource : ℕ) → ProbeEvent J
  async_notify_waiters : (thread_id : ℕ) (resource : ℕ) → ProbeEvent J
  async_notify_waiter_dropped : (thread_id : ℕ) (resource : ℕ) (waiter : ℕ) → ProbeEvent J
  async_channel_created : (thread_id : ℕ) (channel : ℕ) (kind : AsyncChannelKind) → ProbeEvent J
  async_channel_op_requested :
      (thread_id : ℕ) (channel : ℕ) (op : ℕ) (op_kind : AsyncChannelOp) → ProbeEvent J
  async_channel_op_resolved :
      (thread_id : ℕ) (channel : ℕ) (op : ℕ) (op_kind : AsyncChannelOp)
      (outcome : AsyncChannelOutcome)
      → ProbeEvent J
  async_channel_op_dropped : (thread_id : ℕ) (channel : ℕ) (op : ℕ) → ProbeEvent J
  async_channel_endpoint_cloned :
      (thread_id : ℕ) (channel : ℕ) (side : AsyncChannelSide) → ProbeEvent J
  async_channel_endpoint_dropped :
      (thread_id : ℕ) (channel : ℕ) (side : AsyncChannelSide) → ProbeEvent J
  async_channel_closed : (thread_id : ℕ) (channel : ℕ) → ProbeEvent J
  async_broadcast_created : (thread_id : ℕ) (resource : ℕ) (capacity : ℕ) → ProbeEvent J
  async_broadcast_subscribed :
      (thread_id : ℕ) (resource : ℕ) (receiver_id : ℕ) (at_seq : ℕ) → ProbeEvent J
  async_broadcast_op_requested :
      (thread_id : ℕ) (resource : ℕ) (op : ℕ) (receiver_id : Option ℕ) (op_kind : BroadcastOp)
      → ProbeEvent J
  async_broadcast_op_resolved :
      (thread_id : ℕ) (resource : ℕ) (op : ℕ) (receiver_id : Option ℕ) (op_kind : BroadcastOp)
      (outcome : BroadcastOutcome)
      → ProbeEvent J
  async_broadcast_op_dropped : (thread_id : ℕ) (resource : ℕ) (op : ℕ) → ProbeEvent J
  async_broadcast_endpoint_cloned :
      (thread_id : ℕ) (resource : ℕ) (side : AsyncChannelSide) (receiver_id : Option ℕ)
      → ProbeEvent J
  async_broadcast_endpoint_dropped :
      (thread_id : ℕ) (resource : ℕ) (side : AsyncChannelSide) (receiver_id : Option ℕ)
      → ProbeEvent J
  async_cell_created : (thread_id : ℕ) (resource : ℕ) → ProbeEvent J
  async_cell_load : (thread_id : ℕ) (resource : ℕ) (version : ℕ) → ProbeEvent J
  async_cell_store : (thread_id : ℕ) (resource : ℕ) (version : ℕ) → ProbeEvent J

-- `ProbeEvent::resource_name`.
unfoldable pub resource_name : {J : Type 0} → ProbeEvent J → Option String
resource_name (thread_blocked _ blocked_on) = some blocked_on
resource_name (lock_acquired _ resource) = some resource
resource_name (lock_released _ resource) = some resource
resource_name (rw_lock_read_acquired _ resource) = some resource
resource_name (rw_lock_read_released _ resource) = some resource
resource_name (rw_lock_write_acquired _ resource) = some resource
resource_name (rw_lock_write_released _ resource) = some resource
resource_name (atomic_load _ resource) = some resource
resource_name (atomic_store _ resource) = some resource
resource_name (atomic_rmw _ resource) = some resource
resource_name (semaphore_acquired _ resource) = some resource
resource_name (semaphore_released _ resource) = some resource
resource_name _ = none
