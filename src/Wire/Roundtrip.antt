-- ===== src/Wire/Roundtrip.antt =====
-- What the decoder keeps of an event, and the events that it skips.
use laplace.Prelude.{
  ℕ, ◌<◌, ◌≡◌, ◌↔◌, ◌⊎◌, inl, inr, refl, ap, Option, none, some, Option-cases, arith,
}
use laplace.Wire.Raw.{ProbeEventType, RawProbeEvent, discriminant}
use laplace.Wire.Decoded.{
  DecodedProbeEvent, network_request, network_response, lock_acquire, lock_acquired, lock_release,
  lock_contention, sched_switch, thread_spawn, thread_exit, conn_open, conn_close,
  rw_lock_read_acquire, rw_lock_read_release, rw_lock_write_acquire, rw_lock_write_release,
  atomic_load, atomic_store, atomic_rmw, semaphore_acquire, semaphore_release, channel_send,
  channel_recv,
}
use laplace.Wire.Encoding.{encode, Fits}
use laplace.Wire.Decoder.{parse_event_type, decoded, decode}

abbrev pub Unknown : RawProbeEvent → Type 0
Unknown raw = (raw.event_type ≡ 0) ⊎ (22 < raw.event_type)

parse_event_type-discriminant : (t : ProbeEventType) → parse_event_type (discriminant t) ≡ some t
unfolding parse_event_type discriminant
parse_event_type-discriminant t = ground arith

pub discriminant-of :
    (n : ℕ) (t : ProbeEventType) → parse_event_type n ≡ some t → discriminant t ≡ n
unfolding parse_event_type discriminant
discriminant-of n t p = ground arith

parse_event_type-none : (n : ℕ) → (parse_event_type n ≡ none) ↔ ((n ≡ 0) ⊎ (22 < n))
unfolding parse_event_type
parse_event_type-none n = ground arith

-- Every event that the decoder can give is what it makes of the event that carries it, whose other
-- fields are zero, as long as the parent or the next thread of it fits in 32 bits.
pub decode-encode : (d : DecodedProbeEvent) → Fits d → decode (encode d) ≡ some d
unfolding decode parse_event_type decoded
decode-encode
      (network_request tid timestamp_ns resource_id operation_hash payload_hash payload_len
        status_code latency_ns peer_addr peer_port)
      f =
    refl
decode-encode
      (network_response tid timestamp_ns resource_id operation_hash payload_hash payload_len
        status_code latency_ns)
      f =
    refl
decode-encode (lock_acquire tid timestamp_ns mutex_addr contention_ns) f = refl
decode-encode (lock_acquired tid timestamp_ns mutex_addr contention_ns) f = refl
decode-encode (lock_release tid timestamp_ns mutex_addr) f = refl
decode-encode (lock_contention tid timestamp_ns mutex_addr) f = refl
decode-encode (sched_switch prev_tid next_tid timestamp_ns cpu_id) f =
    ap (λ n. some (sched_switch prev_tid n timestamp_ns cpu_id)) (omega (arith, f))
decode-encode (thread_spawn parent_tid child_tid timestamp_ns) f =
    ap (λ n. some (thread_spawn n child_tid timestamp_ns)) (omega (arith, f))
decode-encode (thread_exit tid timestamp_ns) f = refl
decode-encode (conn_open tid timestamp_ns resource_id peer_addr peer_port) f = refl
decode-encode (conn_close tid timestamp_ns resource_id) f = refl
decode-encode (rw_lock_read_acquire tid timestamp_ns rwlock_addr) f = refl
decode-encode (rw_lock_read_release tid timestamp_ns rwlock_addr) f = refl
decode-encode (rw_lock_write_acquire tid timestamp_ns rwlock_addr) f = refl
decode-encode (rw_lock_write_release tid timestamp_ns rwlock_addr) f = refl
decode-encode (atomic_load tid timestamp_ns addr) f = refl
decode-encode (atomic_store tid timestamp_ns addr) f = refl
decode-encode (atomic_rmw tid timestamp_ns addr) f = refl
decode-encode (semaphore_acquire tid timestamp_ns sem_addr) f = refl
decode-encode (semaphore_release tid timestamp_ns sem_addr) f = refl
decode-encode (channel_send tid timestamp_ns channel_addr) f = refl
decode-encode (channel_recv tid timestamp_ns channel_addr) f = refl

pub decode-none : (raw : RawProbeEvent) → (decode raw ≡ none) ↔ Unknown raw
unfolding decode
decode-none raw = elim (Option-cases (parse_event_type raw.event_type)) [
  | inl e ↦ ground (arith, parse_event_type-none raw.event_type)
  | inr (t, e) ↦ ground (arith, parse_event_type-none raw.event_type)
]

keeps :
    (t : ProbeEventType) (raw : RawProbeEvent)
    → ((encode (decoded t raw)).event_type ≡ discriminant t)
      × ((encode (decoded t raw)).tid ≡ raw.tid)
      × ((encode (decoded t raw)).timestamp_ns ≡ raw.timestamp_ns)
unfolding decoded discriminant
keeps t raw = ground arith

-- What may be decoded of an event: nothing if its type is unknown, and else an event of its type,
-- its thread and its time.
abbrev pub Describes : RawProbeEvent → Option DecodedProbeEvent → Type 0
Describes raw none = Unknown raw
Describes raw (some d) =
    (¬ Unknown raw)
    × ((encode d).event_type ≡ raw.event_type)
    × ((encode d).tid ≡ raw.tid)
    × ((encode d).timestamp_ns ≡ raw.timestamp_ns)

-- The decoder gives nothing for just the events of an unknown type, and what it gives has the type,
-- the thread and the time of the event.
pub decode_lem : (raw : RawProbeEvent) → Describes raw (decode raw)
unfolding decode
decode_lem raw = elim (Option-cases (parse_event_type raw.event_type)) [
  | inl u ↦ rw (u, decode) ((parse_event_type-none raw.event_type).0 u)
  | inr (t, p) ↦
      rw (p, decode)
        (ground (
          arith,
          keeps t raw,
          discriminant-of raw.event_type t p,
          parse_event_type-none raw.event_type,
        ))
]
