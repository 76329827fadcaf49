-- ===== src/Wire/Sending.antt =====
-- crates/laplace-probe-sdk/src/session.rs, the module `cloud`: what a program's event is sent as.
use laplace.Prelude.{ℕ, ◌^◌, ltb, if◌then◌else◌, ◌≡◌, Option, none, some, arith}
use laplace.Event.{ProbeEvent, lock_acquired, lock_released, thread_blocked}
use laplace.Wire.Raw.{RawProbeEvent, zeroed}
use laplace.Wire.Decoded.{DecodedProbeEvent}
use laplace.Wire.Decoder.{decode}

-- `u32::try_from`, with what is to be done with the number.
abbrev pub u32_try_from : ℕ → Option ℕ
u32_try_from n = if ltb n (2 ^ 32) then some n else none

-- The raw event of a type and a thread.
abbrev pub of_type : ℕ → ℕ → Option RawProbeEvent
of_type event_type thread_id = elim (u32_try_from thread_id) [
  | none ↦ none
  | some tid ↦ some (record zeroed { event_type = event_type; tid = tid })
]

unfoldable pub probe_event_to_raw : {J : Type 0} → ProbeEvent J → Option RawProbeEvent
probe_event_to_raw (lock_acquired thread_id _) = of_type 4 thread_id
probe_event_to_raw (lock_released thread_id _) = of_type 5 thread_id
probe_event_to_raw (thread_blocked thread_id _) = of_type 6 thread_id
probe_event_to_raw _ = none

-- What the other end decodes of an event, if it is sent.
abbrev pub delivered : {J : Type 0} → ProbeEvent J → Option DecodedProbeEvent
delivered e = elim (probe_event_to_raw e) [ none ↦ none | some raw ↦ decode raw ]

-- What an event is to the other end: the locks have no address and the events have no time.
abbrev pub arrives : {J : Type 0} → ProbeEvent J → Option DecodedProbeEvent
arrives (lock_acquired t _) =
    if ltb t (2 ^ 32) then some (DecodedProbeEvent.lock_acquired t 0 0 0) else none
arrives (lock_released t _) =
    if ltb t (2 ^ 32) then some (DecodedProbeEvent.lock_release t 0 0) else none
arrives (thread_blocked t _) =
    if ltb t (2 ^ 32) then some (DecodedProbeEvent.lock_contention t 0 0) else none
arrives _ = none

-- The other end decodes a plain lock's acquisitions and releases and a blocked thread to the event
-- of the same kind and thread, at the address 0 and the time 0 whatever the lock is; it sees no
-- other event, and none of a thread whose number does not fit in 32 bits.
pub delivered-arrives : (J : Type 0) (e : ProbeEvent J) → delivered e ≡ arrives e
unfolding probe_event_to_raw decode
delivered-arrives J e = ground arith
