-- ===== src/Wire/Raw.antt =====
-- crates/laplace-probe-common/src/lib.rs: the event that the kernel and the user space share.
use laplace.Prelude.{ℕ, List, [], ◌∷◌}

-- The discriminants are `discriminant` below.
pub data ProbeEventType : Type 0 where
  net_request net_response lock_acquire lock_acquired lock_release lock_contention sched_switch
        thread_spawn thread_exit conn_open conn_close rw_lock_read_acquire rw_lock_read_release
        rw_lock_write_acquire rw_lock_write_release atomic_load atomic_store atomic_rmw
        semaphore_acquire semaphore_release channel_send channel_recv :
      ProbeEventType

-- The numbers that the enum gives to its variants.
unfoldable pub discriminant : ProbeEventType → ℕ
discriminant net_request = 1
discriminant net_response = 2
discriminant lock_acquire = 3
discriminant lock_acquired = 4
discriminant lock_release = 5
discriminant lock_contention = 6
discriminant sched_switch = 7
discriminant thread_spawn = 8
discriminant thread_exit = 9
discriminant conn_open = 10
discriminant conn_close = 11
discriminant rw_lock_read_acquire = 12
discriminant rw_lock_read_release = 13
discriminant rw_lock_write_acquire = 14
discriminant rw_lock_write_release = 15
discriminant atomic_load = 16
discriminant atomic_store = 17
discriminant atomic_rmw = 18
discriminant semaphore_acquire = 19
discriminant semaphore_release = 20
discriminant channel_send = 21
discriminant channel_recv = 22

-- Each field is an unsigned integer but `comm`, which is the sixteen bytes of a name.
pub record RawProbeEvent : Type 0 where
  pub timestamp_ns : ℕ
  pub tid : ℕ
  pub pid : ℕ
  pub event_type : ℕ
  pub l4_proto : ℕ
  pub status_code : ℕ
  pub pad0 : ℕ
  pub resource_id : ℕ
  pub peer_addr : ℕ
  pub peer_port : ℕ
  pub local_port : ℕ
  pub payload_hash : ℕ
  pub payload_len : ℕ
  pub operation_hash : ℕ
  pub latency_ns : ℕ
  pub pad1 : ℕ
  pub correlation_id : ℕ
  pub cpu_id : ℕ
  pub depth : ℕ
  pub comm : List ℕ
  pub parent_tid : ℕ
  pub reserved : ℕ

-- `Zeroable::zeroed`.
abbrev pub zeroed : RawProbeEvent
zeroed = record {
  timestamp_ns = 0;
  tid = 0;
  pid = 0;
  event_type = 0;
  l4_proto = 0;
  status_code = 0;
  pad0 = 0;
  resource_id = 0;
  peer_addr = 0;
  peer_port = 0;
  local_port = 0;
  payload_hash = 0;
  payload_len = 0;
  operation_hash = 0;
  latency_ns = 0;
  pad1 = 0;
  correlation_id = 0;
  cpu_id = 0;
  depth = 0;
  comm = 0 ∷ 0 ∷ 0 ∷ 0 ∷ 0 ∷ 0 ∷ 0 ∷ 0 ∷ 0 ∷ 0 ∷ 0 ∷ 0 ∷ 0 ∷ 0 ∷ 0 ∷ 0 ∷ [];
  parent_tid = 0;
  reserved = 0;
}
