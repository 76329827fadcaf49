-- ===== src/Wire/Carrying.antt =====
-- What a raw event says, field by field and without the decoder, and what the decoder makes of a
-- batch of them.
use laplace.Prelude.{
  ◌%◌, ◌^◌, ◌≡◌, ◌↔◌, inl, inr, refl, ap, sym, subst, some, List, [], ◌∷◌, Option-cases, arith,
}
use laplace.Wire.Raw.{ProbeEventType, RawProbeEvent, discriminant}
use laplace.Wire.Decoded.{
  DecodedProbeEvent, network_request, network_response, lock_acquire, lock_acquired, lock_release,
  lock_contention, sched_switch, thread_spawn, thread_exit, conn_open, conn_close,
  rw_lock_read_acquire, rw_lock_read_release, rw_lock_write_acquire, rw_lock_write_release,
  atomic_load, atomic_store, atomic_rmw, semaphore_acquire, semaphore_release, channel_send,
  channel_recv,
}
use laplace.Wire.Decoder.{parse_event_type, decoded, decode, decode_batch}
use laplace.Wire.Roundtrip.{Unknown, decode-none, discriminant-of}

-- The raw event has the type of the decoded one, and the fields of that type, of which the parent or
-- the next thread stands in the lower 32 bits of `parent_tid`. Its other fields are anything.
abbrev pub Means : RawProbeEvent → DecodedProbeEvent → Type 0
Means raw
      (network_request tid timestamp_ns resource_id operation_hash payload_hash payload_len
        status_code latency_ns peer_addr peer_port) =
    (raw.event_type ≡ 1)
    × (raw.tid ≡ tid)
    × (raw.timestamp_ns ≡ timestamp_ns)
    × (raw.resource_id ≡ resource_id)
    × (raw.operation_hash ≡ operation_hash)
    × (raw.payload_hash ≡ payload_hash)
    × (raw.payload_len ≡ payload_len)
    × (raw.status_code ≡ status_code)
    × (raw.latency_ns ≡ latency_ns)
    × (raw.peer_addr ≡ peer_addr)
    × (raw.peer_port ≡ peer_port)
Means raw
      (network_response tid timestamp_ns resource_id operation_hash payload_hash payload_len
        status_code latency_ns) =
    (raw.event_type ≡ 2)
    × (raw.tid ≡ tid)
    × (raw.timestamp_ns ≡ timestamp_ns)
    × (raw.resource_id ≡ resource_id)
    × (raw.operation_hash ≡ operation_hash)
    × (raw.payload_hash ≡ payload_hash)
    × (raw.payload_len ≡ payload_len)
    × (raw.status_code ≡ status_code)
    × (raw.latency_ns ≡ latency_ns)
Means raw (lock_acquire tid timestamp_ns mutex_addr contention_ns) =
    (raw.event_type ≡ 3)
    × (raw.tid ≡ tid)
    × (raw.timestamp_ns ≡ timestamp_ns)
    × (raw.resource_id ≡ mutex_addr)
    × (raw.latency_ns ≡ contention_ns)
Means raw (lock_acquired tid timestamp_ns mutex_addr contention_ns) =
    (raw.event_type ≡ 4)
    × (raw.tid ≡ tid)
    × (raw.timestamp_ns ≡ timestamp_ns)
    × (raw.resource_id ≡ mutex_addr)
    × (raw.latency_ns ≡ contention_ns)
Means raw (lock_release tid timestamp_ns mutex_addr) =
    (raw.event_type ≡ 5)
    × (raw.tid ≡ tid)
    × (raw.timestamp_ns ≡ timestamp_ns)
    × (raw.resource_id ≡ mutex_addr)
Means raw (lock_contention tid timestamp_ns mutex_addr) =
    (raw.event_type ≡ 6)
    × (raw.tid ≡ tid)
    × (raw.timestamp_ns ≡ timestamp_ns)
    × (raw.resource_id ≡ mutex_addr)
Means raw (sched_switch prev_tid next_tid timestamp_ns cpu_id) =
    (raw.event_type ≡ 7)
    × (raw.tid ≡ prev_tid)
    × (raw.parent_tid % 2 ^ 32 ≡ next_tid)
    × (raw.timestamp_ns ≡ timestamp_ns)
    × (raw.cpu_id ≡ cpu_id)
Means raw (thread_spawn parent_tid child_tid timestamp_ns) =
    (raw.event_type ≡ 8)
    × (raw.parent_tid % 2 ^ 32 ≡ parent_tid)
    × (raw.tid ≡ child_tid)
    × (raw.timestamp_ns ≡ timestamp_ns)
Means raw (thread_exit tid timestamp_ns) =
    (raw.event_type ≡ 9) × (raw.tid ≡ tid) × (raw.timestamp_ns ≡ timestamp_ns)
Means raw (conn_open tid timestamp_ns resource_id peer_addr peer_port) =
    (raw.event_type ≡ 10)
    × (raw.tid ≡ tid)
    × (raw.timestamp_ns ≡ timestamp_ns)
    × (raw.resource_id ≡ resource_id)
    × (raw.peer_addr ≡ peer_addr)
    × (raw.peer_port ≡ peer_port)
Means raw (conn_close tid timestamp_ns resource_id) =
    (raw.event_type ≡ 11)
    × (raw.tid ≡ tid)
    × (raw.timestamp_ns ≡ timestamp_ns)
    × (raw.resource_id ≡ resource_id)
Means raw (rw_lock_read_acquire tid timestamp_ns rwlock_addr) =
    (raw.event_type ≡ 12)
    × (raw.tid ≡ tid)
    × (raw.timestamp_ns ≡ timestamp_ns)
    × (raw.resource_id ≡ rwlock_addr)
Means raw (rw_lock_read_release tid timestamp_ns rwlock_addr) =
    (raw.event_type ≡ 13)
    × (raw.tid ≡ tid)
    × (raw.timestamp_ns ≡ timestamp_ns)
    × (raw.resource_id ≡ rwlock_addr)
Means raw (rw_lock_write_acquire tid timestamp_ns rwlock_addr) =
    (raw.event_type ≡ 14)
    × (raw.tid ≡ tid)
    × (raw.timestamp_ns ≡ timestamp_ns)
    × (raw.resource_id ≡ rwlock_addr)
Means raw (rw_lock_write_release tid timestamp_ns rwlock_addr) =
    (raw.event_type ≡ 15)
    × (raw.tid ≡ tid)
    × (raw.timestamp_ns ≡ timestamp_ns)
    × (raw.resource_id ≡ rwlock_addr)
Means raw (atomic_load tid timestamp_ns addr) =
    (raw.event_type ≡ 16)
    × (raw.tid ≡ tid)
    × (raw.timestamp_ns ≡ timestamp_ns)
    × (raw.resource_id ≡ addr)
Means raw (atomic_store tid timestamp_ns addr) =
    (raw.event_type ≡ 17)
    × (raw.tid ≡ tid)
    × (raw.timestamp_ns ≡ timestamp_ns)
    × (raw.resource_id ≡ addr)
Means raw (atomic_rmw tid timestamp_ns addr) =
    (raw.event_type ≡ 18)
    × (raw.tid ≡ tid)
    × (raw.timestamp_ns ≡ timestamp_ns)
    × (raw.resource_id ≡ addr)
Means raw (semaphore_acquire tid timestamp_ns sem_addr) =
    (raw.event_type ≡ 19)
    × (raw.tid ≡ tid)
    × (raw.timestamp_ns ≡ timestamp_ns)
    × (raw.resource_id ≡ sem_addr)
Means raw (semaphore_release tid timestamp_ns sem_addr) =
    (raw.event_type ≡ 20)
    × (raw.tid ≡ tid)
    × (raw.timestamp_ns ≡ timestamp_ns)
    × (raw.resource_id ≡ sem_addr)
Means raw (channel_send tid timestamp_ns channel_addr) =
    (raw.event_type ≡ 21)
    × (raw.tid ≡ tid)
    × (raw.timestamp_ns ≡ timestamp_ns)
    × (raw.resource_id ≡ channel_addr)
Means raw (channel_recv tid timestamp_ns channel_addr) =
    (raw.event_type ≡ 22)
    × (raw.tid ≡ tid)
    × (raw.timestamp_ns ≡ timestamp_ns)
    × (raw.resource_id ≡ channel_addr)

decoded-Means :
    (t : ProbeEventType) (raw : RawProbeEvent)
    → raw.event_type ≡ discriminant t
    → Means raw (decoded t raw)
unfolding decoded discriminant
decoded-Means t raw e = ground arith

Means-decode : (raw : RawProbeEvent) (d : DecodedProbeEvent) → Means raw d → decode raw ≡ some d
unfolding decode parse_event_type decoded
Means-decode raw d k = ground arith

decode-Means : (raw : RawProbeEvent) (d : DecodedProbeEvent) → decode raw ≡ some d → Means raw d
unfolding decode
decode-Means raw d e = elim (Option-cases (parse_event_type raw.event_type)) [
  | inl unknown_type ↦ absurd (ground arith)
  | inr (t, p) ↦
      let same : decoded t raw ≡ d = ground arith in
      subst (Means raw) same (decoded-Means t raw (sym (discriminant-of raw.event_type t p)))
]

-- A batch carries these decoded events, in their order, and else raw events of unknown types.
pub data Carries : List RawProbeEvent → List DecodedProbeEvent → Type 0 where
  nothing : Carries [] []
  known :
      (raw : RawProbeEvent) (d : DecodedProbeEvent) (raws : List RawProbeEvent)
      (ds : List DecodedProbeEvent)
      → Means raw d
      → Carries raws ds
      → Carries (raw ∷ raws) (d ∷ ds)
  unknown :
      (raw : RawProbeEvent) (raws : List RawProbeEvent) (ds : List DecodedProbeEvent)
      → Unknown raw
      → Carries raws ds
      → Carries (raw ∷ raws) ds

Carries-decode_batch :
    (raws : List RawProbeEvent) (ds : List DecodedProbeEvent)
    → Carries raws ds
    → decode_batch raws ≡ ds
unfolding decode_batch
Carries-decode_batch raws ds nothing = refl
Carries-decode_batch raws ds (known raw d rest more m c) =
    rw (Means-decode raw d m, decode_batch) (ap (λ l. d ∷ l) (Carries-decode_batch rest more c))
Carries-decode_batch raws ds (unknown raw rest more u c) =
    rw ((decode-none raw).1 u, decode_batch) (Carries-decode_batch rest more c)

carried : (raws : List RawProbeEvent) → Carries raws (decode_batch raws)
unfolding decode_batch
carried [] = nothing
carried (raw ∷ raws) = elim (Option-cases (decode raw)) [
  | inl skipped ↦
      rw (skipped, decode_batch) (unknown raw raws _ ((decode-none raw).0 skipped) (carried raws))
  | inr (d, e) ↦ rw (e, decode_batch) (known raw d raws _ (decode-Means raw d e) (carried raws))
]

-- A batch is decoded to a list of events exactly if it carries them in that order: each raw event
-- has the type of the next of them and its values in the fields that belong to that type (the
-- parent or the next thread in the lower 32 bits of its field), whatever stands in its other
-- fields, or it is of an unknown type.
pub decode_batch-Carries :
    (raws : List RawProbeEvent) (ds : List DecodedProbeEvent)
    → (decode_batch raws ≡ ds) ↔ Carries raws ds
decode_batch-Carries raws ds =
    ((λ e. subst (Carries raws) e (carried raws)), Carries-decode_batch raws ds)
