-- ===== src/Wire/Encoding.antt =====
-- The raw event that a decoded event stands for: what the decoder undoes.
use laplace.Prelude.{◌^◌, ◌<◌}
use laplace.Wire.Raw.{RawProbeEvent, zeroed}
use laplace.Wire.Decoded.{
  DecodedProbeEvent, network_request, network_response, lock_acquire, lock_acquired, lock_release,
  lock_contention, sched_switch, thread_spawn, thread_exit, conn_open, conn_close,
  rw_lock_read_acquire, rw_lock_read_release, rw_lock_write_acquire, rw_lock_write_release,
  atomic_load, atomic_store, atomic_rmw, semaphore_acquire, semaphore_release, channel_send,
  channel_recv,
}

-- The event that carries a decoded one, with zeros in every other field.
abbrev pub encode : DecodedProbeEvent → RawProbeEvent
encode
      (network_request tid timestamp_ns resource_id operation_hash payload_hash payload_len
        status_code latency_ns peer_addr peer_port) =
    record zeroed {
      event_type = 1;
      tid = tid;
      timestamp_ns = timestamp_ns;
      resource_id = resource_id;
      operation_hash = operation_hash;
      payload_hash = payload_hash;
      payload_len = payload_len;
      status_code = status_code;
      latency_ns = latency_ns;
      peer_addr = peer_addr;
      peer_port = peer_port;
    }
encode
      (network_response tid timestamp_ns resource_id operation_hash payload_hash payload_len
        status_code latency_ns) =
    record zeroed {
      event_type = 2;
      tid = tid;
      timestamp_ns = timestamp_ns;
      resource_id = resource_id;
      operation_hash = operation_hash;
      payload_hash = payload_hash;
      payload_len = payload_len;
      status_code = status_code;
      latency_ns = latency_ns;
    }
encode (lock_acquire tid timestamp_ns mutex_addr contention_ns) = record zeroed {
  event_type = 3;
  tid = tid;
  timestamp_ns = timestamp_ns;
  resource_id = mutex_addr;
  latency_ns = contention_ns;
}
encode (lock_acquired tid timestamp_ns mutex_addr contention_ns) = record zeroed {
  event_type = 4;
  tid = tid;
  timestamp_ns = timestamp_ns;
  resource_id = mutex_addr;
  latency_ns = contention_ns;
}
encode (lock_release tid timestamp_ns mutex_addr) = record zeroed {
  event_type = 5;
  tid = tid;
  timestamp_ns = timestamp_ns;
  resource_id = mutex_addr;
}
encode (lock_contention tid timestamp_ns mutex_addr) = record zeroed {
  event_type = 6;
  tid = tid;
  timestamp_ns = timestamp_ns;
  resource_id = mutex_addr;
}
encode (sched_switch prev_tid next_tid timestamp_ns cpu_id) = record zeroed {
  event_type = 7;
  tid = prev_tid;
  parent_tid = next_tid;
  timestamp_ns = timestamp_ns;
  cpu_id = cpu_id;
}
encode (thread_spawn parent_tid child_tid timestamp_ns) = record zeroed {
  event_type = 8;
  parent_tid = parent_tid;
  tid = child_tid;
  timestamp_ns = timestamp_ns;
}
encode (thread_exit tid timestamp_ns) = record zeroed {
  event_type = 9;
  tid = tid;
  timestamp_ns = timestamp_ns;
}
encode (conn_open tid timestamp_ns resource_id peer_addr peer_port) = record zeroed {
  event_type = 10;
  tid = tid;
  timestamp_ns = timestamp_ns;
  resource_id = resource_id;
  peer_addr = peer_addr;
  peer_port = peer_port;
}
encode (conn_close tid timestamp_ns resource_id) = record zeroed {
  event_type = 11;
  tid = tid;
  timestamp_ns = timestamp_ns;
  resource_id = resource_id;
}
encode (rw_lock_read_acquire tid timestamp_ns rwlock_addr) = record zeroed {
  event_type = 12;
  tid = tid;
  timestamp_ns = timestamp_ns;
  resource_id = rwlock_addr;
}
encode (rw_lock_read_release tid timestamp_ns rwlock_addr) = record zeroed {
  event_type = 13;
  tid = tid;
  timestamp_ns = timestamp_ns;
  resource_id = rwlock_addr;
}
encode (rw_lock_write_acquire tid timestamp_ns rwlock_addr) = record zeroed {
  event_type = 14;
  tid = tid;
  timestamp_ns = timestamp_ns;
  resource_id = rwlock_addr;
}
encode (rw_lock_write_release tid timestamp_ns rwlock_addr) = record zeroed {
  event_type = 15;
  tid = tid;
  timestamp_ns = timestamp_ns;
  resource_id = rwlock_addr;
}
encode (atomic_load tid timestamp_ns addr) = record zeroed {
  event_type = 16;
  tid = tid;
  timestamp_ns = timestamp_ns;
  resource_id = addr;
}
encode (atomic_store tid timestamp_ns addr) = record zeroed {
  event_type = 17;
  tid = tid;
  timestamp_ns = timestamp_ns;
  resource_id = addr;
}
encode (atomic_rmw tid timestamp_ns addr) = record zeroed {
  event_type = 18;
  tid = tid;
  timestamp_ns = timestamp_ns;
  resource_id = addr;
}
encode (semaphore_acquire tid timestamp_ns sem_addr) = record zeroed {
  event_type = 19;
  tid = tid;
  timestamp_ns = timestamp_ns;
  resource_id = sem_addr;
}
encode (semaphore_release tid timestamp_ns sem_addr) = record zeroed {
  event_type = 20;
  tid = tid;
  timestamp_ns = timestamp_ns;
  resource_id = sem_addr;
}
encode (channel_send tid timestamp_ns channel_addr) = record zeroed {
  event_type = 21;
  tid = tid;
  timestamp_ns = timestamp_ns;
  resource_id = channel_addr;
}
encode (channel_recv tid timestamp_ns channel_addr) = record zeroed {
  event_type = 22;
  tid = tid;
  timestamp_ns = timestamp_ns;
  resource_id = channel_addr;
}

-- The threads that an event carries in the wider field `parent_tid` fit the narrower one.
abbrev pub Fits : DecodedProbeEvent → Type 0
Fits (sched_switch prev_tid next_tid timestamp_ns cpu_id) = next_tid < 2 ^ 32
Fits (thread_spawn parent_tid child_tid timestamp_ns) = parent_tid < 2 ^ 32
Fits _ = Unit {0}
