-- ===== src/Wire/Decoder.antt =====
-- crates/laplace-probe-common/src/decoder.rs.
use laplace.Prelude.{ℕ, ◌%◌, ◌^◌, Option, none, some, List, [], ◌∷◌, if◌then◌else◌, ◌==◌}
use laplace.Wire.Raw.{
  ProbeEventType, RawProbeEvent, net_request, net_response, lock_acquire, lock_acquired,
  lock_release, lock_contention, sched_switch, thread_spawn, thread_exit, conn_open, conn_close,
  rw_lock_read_acquire, rw_lock_read_release, rw_lock_write_acquire, rw_lock_write_release,
  atomic_load, atomic_store, atomic_rmw, semaphore_acquire, semaphore_release, channel_send,
  channel_recv,
}
use laplace.Wire.Decoded.{DecodedProbeEvent}

unfoldable pub parse_event_type : ℕ → Option ProbeEventType
parse_event_type raw =
    if raw == 1
    then some net_request
    else if raw == 2
    then some net_response
    else if raw == 3
    then some lock_acquire
    else if raw == 4
    then some lock_acquired
    else if raw == 5
    then some lock_release
    else if raw == 6
    then some lock_contention
    else if raw == 7
    then some sched_switch
    else if raw == 8
    then some thread_spawn
    else if raw == 9
    then some thread_exit
    else if raw == 10
    then some conn_open
    else if raw == 11
    then some conn_close
    else if raw == 12
    then some rw_lock_read_acquire
    else if raw == 13
    then some rw_lock_read_release
    else if raw == 14
    then some rw_lock_write_acquire
    else if raw == 15
    then some rw_lock_write_release
    else if raw == 16
    then some atomic_load
    else if raw == 17
    then some atomic_store
    else if raw == 18
    then some atomic_rmw
    else if raw == 19
    then some semaphore_acquire
    else if raw == 20
    then some semaphore_release
    else if raw == 21
    then some channel_send
    else if raw == 22
    then some channel_recv
    else none

-- `value as u32`.
abbrev pub as_u32 : ℕ → ℕ
as_u32 value = value % 2 ^ 32

-- The arms of `decode`.
unfoldable pub decoded : ProbeEventType → RawProbeEvent → DecodedProbeEvent
decoded net_request raw =
    DecodedProbeEvent.network_request raw.tid raw.timestamp_ns raw.resource_id raw.operation_hash
      raw.payload_hash raw.payload_len raw.status_code raw.latency_ns raw.peer_addr raw.peer_port
decoded net_response raw =
    DecodedProbeEvent.network_response raw.tid raw.timestamp_ns raw.resource_id raw.operation_hash
      raw.payload_hash raw.payload_len raw.status_code raw.latency_ns
decoded lock_acquire raw =
    DecodedProbeEvent.lock_acquire raw.tid raw.timestamp_ns raw.resource_id raw.latency_ns
decoded lock_acquired raw =
    DecodedProbeEvent.lock_acquired raw.tid raw.timestamp_ns raw.resource_id raw.latency_ns
decoded lock_release raw = DecodedProbeEvent.lock_release raw.tid raw.timestamp_ns raw.resource_id
decoded lock_contention raw =
    DecodedProbeEvent.lock_contention raw.tid raw.timestamp_ns raw.resource_id
decoded sched_switch raw =
    DecodedProbeEvent.sched_switch raw.tid (as_u32 raw.parent_tid) raw.timestamp_ns raw.cpu_id
decoded thread_spawn raw =
    DecodedProbeEvent.thread_spawn (as_u32 raw.parent_tid) raw.tid raw.timestamp_ns
decoded thread_exit raw = DecodedProbeEvent.thread_exit raw.tid raw.timestamp_ns
decoded conn_open raw =
    DecodedProbeEvent.conn_open raw.tid raw.timestamp_ns raw.resource_id raw.peer_addr raw.peer_port
decoded conn_close raw = DecodedProbeEvent.conn_close raw.tid raw.timestamp_ns raw.resource_id
decoded rw_lock_read_acquire raw =
    DecodedProbeEvent.rw_lock_read_acquire raw.tid raw.timestamp_ns raw.resource_id
decoded rw_lock_read_release raw =
    DecodedProbeEvent.rw_lock_read_release raw.tid raw.timestamp_ns raw.resource_id
decoded rw_lock_write_acquire raw =
    DecodedProbeEvent.rw_lock_write_acquire raw.tid raw.timestamp_ns raw.resource_id
decoded rw_lock_write_release raw =
    DecodedProbeEvent.rw_lock_write_release raw.tid raw.timestamp_ns raw.resource_id
decoded atomic_load raw = DecodedProbeEvent.atomic_load raw.tid raw.timestamp_ns raw.resource_id
decoded atomic_store raw = DecodedProbeEvent.atomic_store raw.tid raw.timestamp_ns raw.resource_id
decoded atomic_rmw raw = DecodedProbeEvent.atomic_rmw raw.tid raw.timestamp_ns raw.resource_id
decoded semaphore_acquire raw =
    DecodedProbeEvent.semaphore_acquire raw.tid raw.timestamp_ns raw.resource_id
decoded semaphore_release raw =
    DecodedProbeEvent.semaphore_release raw.tid raw.timestamp_ns raw.resource_id
decoded channel_send raw = DecodedProbeEvent.channel_send raw.tid raw.timestamp_ns raw.resource_id
decoded channel_recv raw = DecodedProbeEvent.channel_recv raw.tid raw.timestamp_ns raw.resource_id

unfoldable pub decode : RawProbeEvent → Option DecodedProbeEvent
unfolding parse_event_type decoded
decode raw = elim (parse_event_type raw.event_type) [
  | none ↦ none
  | some evt ↦ some (decoded evt raw)
]

-- `filter_map(decode)`.
unfoldable pub decode_batch : List RawProbeEvent → List DecodedProbeEvent
unfolding decode
decode_batch [] = []
decode_batch (e ∷ events) = elim (decode e) [
  | none ↦ decode_batch events
  | some d ↦ d ∷ decode_batch events
]
