-- ===== src/Scenarios/Wire.antt =====
-- Raw events of both ends.
use laplace.Prelude.{
  ℕ, suc, ◌≡◌, ◌↔◌, ◌+◌, ◌^◌, refl, some, List, [], ◌∷◌, length, ◌&&◌, ◌==◌, if◌then◌else◌, arith,
}
use laplace.Event.{lock_acquired}
use laplace.Wire.Raw.{RawProbeEvent, zeroed}
use laplace.Wire.Decoded.{DecodedProbeEvent, thread_exit, sched_switch}
use laplace.Wire.Decoder.{decode, decode_batch}
use laplace.Wire.Roundtrip.{Describes, decode-encode, decode_lem}
use laplace.Wire.Carrying.{Carries, decode_batch-Carries}
use laplace.Wire.Encoding.{encode}
use laplace.Wire.Mock.{mock_tid_a, base_clock_ns, generate_livelock_starvation}
use laplace.Wire.Timeline.{Timed, livelock_starvation, generate, events_of, generate-Timed}
use laplace.Wire.Sending.{delivered, arrives, delivered-arrives}

abbrev switch : DecodedProbeEvent
switch = sched_switch 10 20 500 3

abbrev exit : DecodedProbeEvent
exit = thread_exit 4 600

abbrev strange : RawProbeEvent
strange = record zeroed { event_type = 99; tid = 4 }

-- The test `decode_sched_switch_uses_parent_tid_as_next_tid`.
switch_decoded :
    decode (record zeroed { event_type = 7; tid = 10; parent_tid = 20; cpu_id = 3 })
    ≡ some (sched_switch 10 20 0 3)
unfolding decode
switch_decoded = refl

-- A thread that does not fit is cut to 32 bits.
wide_decoded :
    decode (record zeroed { event_type = 7; tid = 10; parent_tid = 2 ^ 32 + 5 })
    ≡ some (sched_switch 10 5 0 0)
unfolding decode
wide_decoded = refl

decode-encode_example : decode (encode switch) ≡ some switch
decode-encode_example = decode-encode switch (ground arith)

decode_lem_example : Describes strange (decode strange)
decode_lem_example = decode_lem strange

-- A thread switch with all that a kernel writes besides.
abbrev full_switch : RawProbeEvent
full_switch = record (encode switch) {
  pid = 77;
  depth = 2;
  correlation_id = 5;
  resource_id = 640;
  parent_tid = 2 ^ 32 + 20;
}

decode_batch-Carries_example :
    (decode_batch (full_switch ∷ strange ∷ encode exit ∷ []) ≡ switch ∷ exit ∷ [])
    ↔ Carries (full_switch ∷ strange ∷ encode exit ∷ []) (switch ∷ exit ∷ [])
decode_batch-Carries_example = decode_batch-Carries _ _

full_decoded : decode_batch (full_switch ∷ strange ∷ encode exit ∷ []) ≡ switch ∷ exit ∷ []
unfolding decode_batch
full_decoded = refl

delivered-arrives_example :
    delivered {J = Unit {0}} (lock_acquired 9 "accounts")
    ≡ arrives {J = Unit {0}} (lock_acquired 9 "accounts")
delivered-arrives_example = delivered-arrives (Unit {0}) (lock_acquired 9 "accounts")

-- The test `livelock_has_enough_cycles_to_trigger_starvation`.
abbrev releases : List RawProbeEvent → ℕ
releases [] = 0
releases (e ∷ es) =
    let later = releases es in
    if (e.tid == mock_tid_a) && (e.event_type == 5) then suc later else later

livelock_releases : releases (generate_livelock_starvation 3405691582) ≡ 12
unfolding generate_livelock_starvation
livelock_releases = refl

generate-Timed_example :
    let events = decode_batch (generate livelock_starvation 42) in
    Timed base_clock_ns (base_clock_ns + 1002800) events
    × (length events ≡ events_of livelock_starvation)
generate-Timed_example = generate-Timed livelock_starvation 42
