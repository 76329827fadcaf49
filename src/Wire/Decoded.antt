-- ===== src/Wire/Decoded.antt =====
-- crates/laplace-probe-common/src/decoder.rs: what an event is decoded to.
use laplace.Prelude.{ℕ}

pub data DecodedProbeEvent : Type 0 where
  network_request :
      (tid timestamp_ns resource_id operation_hash payload_hash payload_len status_code latency_ns
        peer_addr peer_port : ℕ)
      → DecodedProbeEvent
  network_response :
      (tid timestamp_ns resource_id operation_hash payload_hash payload_len status_code
        latency_ns : ℕ)
      → DecodedProbeEvent
  lock_acquire : (tid timestamp_ns mutex_addr contention_ns : ℕ) → DecodedProbeEvent
  lock_acquired : (tid timestamp_ns mutex_addr contention_ns : ℕ) → DecodedProbeEvent
  lock_release : (tid timestamp_ns mutex_addr : ℕ) → DecodedProbeEvent
  lock_contention : (tid timestamp_ns mutex_addr : ℕ) → DecodedProbeEvent
  sched_switch : (prev_tid next_tid timestamp_ns cpu_id : ℕ) → DecodedProbeEvent
  thread_spawn : (parent_tid child_tid timestamp_ns : ℕ) → DecodedProbeEvent
  thread_exit : (tid timestamp_ns : ℕ) → DecodedProbeEvent
  conn_open : (tid timestamp_ns resource_id peer_addr peer_port : ℕ) → DecodedProbeEvent
  conn_close : (tid timestamp_ns resource_id : ℕ) → DecodedProbeEvent
  rw_lock_read_acquire : (tid timestamp_ns rwlock_addr : ℕ) → DecodedProbeEvent
  rw_lock_read_release : (tid timestamp_ns rwlock_addr : ℕ) → DecodedProbeEvent
  rw_lock_write_acquire : (tid timestamp_ns rwlock_addr : ℕ) → DecodedProbeEvent
  rw_lock_write_release : (tid timestamp_ns rwlock_addr : ℕ) → DecodedProbeEvent
  atomic_load : (tid timestamp_ns addr : ℕ) → DecodedProbeEvent
  atomic_store : (tid timestamp_ns addr : ℕ) → DecodedProbeEvent
  atomic_rmw : (tid timestamp_ns addr : ℕ) → DecodedProbeEvent
  semaphore_acquire : (tid timestamp_ns sem_addr : ℕ) → DecodedProbeEvent
  semaphore_release : (tid timestamp_ns sem_addr : ℕ) → DecodedProbeEvent
  channel_send : (tid timestamp_ns channel_addr : ℕ) → DecodedProbeEvent
  channel_recv : (tid timestamp_ns channel_addr : ℕ) → DecodedProbeEvent
