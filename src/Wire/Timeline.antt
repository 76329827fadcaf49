-- ===== src/Wire/Timeline.antt =====
-- When the events of the generator happen, and that the decoder reads them.
use laplace.Prelude.{
  ℕ, suc, ◌+◌, ◌%◌, ◌^◌, ◌≤◌, ◌<◌, ◌≡◌, ◌∙◌, refl, ap, List, [], ◌∷◌, length, some, arith,
}
use laplace.Wire.Raw.{RawProbeEvent}
use laplace.Wire.Decoded.{DecodedProbeEvent}
use laplace.Wire.Encoding.{encode}
use laplace.Wire.Decoder.{parse_event_type, decoded, decode, decode_batch}
use laplace.Wire.Mock.{
  base_clock_ns, Made, make, thread_spawn, lock_acquire, lock_acquired, lock_release,
  lock_contention, sched_switch, emit_from, starting_at, clean_uncontested_script,
  ab_ba_deadlock_script, data_race_script, livelock_starvation_script, generate_clean_uncontested,
  generate_ab_ba_deadlock, generate_data_race, generate_livelock_starvation,
}

-- None of the events is before the time `from` or after the time `until`, and none before the one
-- that stands before it.
abbrev pub Timed : (from until : ℕ) → List DecodedProbeEvent → Type 0
Timed from until [] = from ≤ until
Timed from until (d ∷ ds) = let t = (encode d).timestamp_ns in (from ≤ t) × Timed t until ds

abbrev total : List (Made × ℕ) → ℕ
total [] = 0
total ((m, advance) ∷ rest) = advance + total rest

decode-make :
    (m : Made) (ts : ℕ)
    → (d : DecodedProbeEvent) × (decode (make m ts) ≡ some d) × ((encode d).timestamp_ns ≡ ts)
unfolding decode make parse_event_type decoded
decode-make (thread_spawn child parent) ts = (_, refl, refl)
decode-make (lock_acquire tid addr latency) ts = (_, refl, refl)
decode-make (lock_acquired tid addr latency) ts = (_, refl, refl)
decode-make (lock_release tid addr) ts = (_, refl, refl)
decode-make (lock_contention tid addr) ts = (_, refl, refl)
decode-make (sched_switch prev next cpu) ts = (_, refl, refl)

emit_from-Timed :
    (script : List (Made × ℕ)) (from ts until : ℕ)
    → from ≤ ts
    → ts + total script ≤ until
    → until < 2 ^ 64
    → let events = emit_from ts script in
      Timed from until (decode_batch events) × (length (decode_batch events) ≡ length script)
unfolding emit_from decode_batch
emit_from-Timed [] from ts until a b c = (omega arith, refl)
emit_from-Timed ((m, advance) ∷ rest) from ts until a b c =
    let (d, decodes, at_ts) = decode-make m ts in
    let (timed, each) =
      emit_from-Timed rest ts ((ts + advance) % 2 ^ 64) until (omega arith) (omega arith) c in
    rw (decodes, decode_batch) ((omega (arith, at_ts), rw at_ts timed), ap suc each)

-- The scenarios of a `MockProbeSource`.
pub data Scene : Type 0 where
  clean_uncontested ab_ba_deadlock data_race livelock_starvation : Scene

unfoldable pub generate : Scene → (seed : ℕ) → List RawProbeEvent
unfolding generate_clean_uncontested generate_ab_ba_deadlock generate_data_race
    generate_livelock_starvation
generate clean_uncontested seed = generate_clean_uncontested seed
generate ab_ba_deadlock seed = generate_ab_ba_deadlock seed
generate data_race seed = generate_data_race seed
generate livelock_starvation seed = generate_livelock_starvation seed

abbrev script_of : Scene → List (Made × ℕ)
script_of clean_uncontested = clean_uncontested_script
script_of ab_ba_deadlock = ab_ba_deadlock_script
script_of data_race = data_race_script
script_of livelock_starvation = livelock_starvation_script

abbrev pub events_of : Scene → ℕ
events_of clean_uncontested = 4
events_of ab_ba_deadlock = 12
events_of data_race = 10
events_of livelock_starvation = 54

generate_lem :
    (scene : Scene) (seed : ℕ)
    → generate scene seed ≡ emit_from (starting_at seed) (script_of scene)
unfolding generate
generate_lem clean_uncontested seed = refl
generate_lem ab_ba_deadlock seed = refl
generate_lem data_race seed = refl
generate_lem livelock_starvation seed = refl

script_lem :
    (scene : Scene)
    → (total (script_of scene) ≤ 2800) × (length (script_of scene) ≡ events_of scene)
script_lem clean_uncontested = (omega arith, refl)
script_lem ab_ba_deadlock = (omega arith, refl)
script_lem data_race = (omega arith, refl)
script_lem livelock_starvation = (omega arith, refl)

-- Whatever the seed, the decoder reads all events of each scene, of which there are 4, 12, 10 and 54;
-- their times never go back, and no addition of 64 bits wraps: they lie between one second and one
-- second and 1,002,800 nanoseconds.
pub generate-Timed :
    (scene : Scene) (seed : ℕ)
    → let events = decode_batch (generate scene seed) in
      Timed base_clock_ns (base_clock_ns + 1002800) events × (length events ≡ events_of scene)
generate-Timed scene seed =
    let (short, size) = script_lem scene in
    let start : (starting_at seed ≤ base_clock_ns + 1000000) × (base_clock_ns ≤ starting_at seed) =
      unfold starting_at in (omega arith, omega arith) in
    let (timed, each) =
      emit_from-Timed (script_of scene) base_clock_ns (starting_at seed) (base_clock_ns + 1002800)
        (omega (arith, start)) (omega (arith, start, short)) (omega arith) in
    rw (generate_lem scene seed) (timed, each ∙ size)
