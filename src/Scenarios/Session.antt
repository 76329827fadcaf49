-- ===== src/Scenarios/Session.antt =====
-- Capture sessions and logical thread ids on a process of two threads.
use laplace.Prelude.{ℕ, ◌≡◌, ◌≢◌, refl, none, some, List, [], ◌∷◌, map, lookup, arith}
use laplace.Event.{ProbeEvent, lock_acquired, lock_released}
use laplace.Session.Sinks.{Process, fresh_process, current_thread_id, begin, finish, emit}
use laplace.Session.Sinks.{local_sender, received}
use laplace.Session.Ids.{Act, asks, emits, sets_task, perform_all, current_thread_id-distinct}
use laplace.Session.Reused.{AllNew, ask_all, current_thread_id-reused}
use laplace.Session.Captures.{emit_all, finish-emit_all}

abbrev process : Process (Unit {0})
process = fresh_process

abbrev emissions : List (ℕ × ProbeEvent (Unit {0}))
emissions = (1, lock_acquired 0 "m") ∷ (2, lock_acquired 1 "n") ∷ (1, lock_released 0 "m") ∷ []

unset : (os : ℕ) → local_sender os process ≡ none
unfolding local_sender lookup
unset os = refl

nothing_sent : received 5 process.sent ≡ []
unfolding received
nothing_sent = refl

finish-emit_all_example :
    let (after, captured) = finish 5 (emit_all emissions (begin 5 process)) in
    (captured ≡ map (λ p. p.1) emissions)
    × ((os : ℕ) (e : ProbeEvent (Unit {0})) → emit os e after ≡ after)
finish-emit_all_example = finish-emit_all 5 emissions process unset refl nothing_sent

one-ne-two : ◌≢◌ {A = ℕ} 1 2
one-ne-two e = ground arith

abbrev acts : List (Act (Unit {0}))
acts = asks 4 ∷ emits 1 (lock_acquired 0 "m") ∷ asks 1 ∷ sets_task 4 9 ∷ asks 4 ∷ []

current_thread_id-distinct_example :
    let s0 = perform_all acts (begin 5 process) in
    let (s1, id) = current_thread_id 1 s0 in
    let (s2, other) = current_thread_id 2 s1 in (id ≢ other) × ((current_thread_id 1 s2).1 ≡ id)
current_thread_id-distinct_example =
    current_thread_id-distinct 5 process acts 1 2 refl (ground arith) one-ne-two

-- Two threads had the ids 0 and 1 in a session before.
abbrev before : Process (Unit {0})
before = record process { probe_thread_id = (7, 0) ∷ (8, 1) ∷ []; next_implicit_thread_id = 2 }

known_before : lookup 8 before.probe_thread_id ≡ some 1
unfolding lookup
known_before = refl

new_threads : AllNew (3 ∷ 4 ∷ []) before.probe_thread_id
unfolding lookup
new_threads = (refl, (λ e. ground arith), (refl, (λ e. e), tt))

current_thread_id-reused_example :
    let now = ask_all (3 ∷ []) (begin 6 before) in
    ((current_thread_id 8 now).1 ≡ 1) × ((current_thread_id 4 now).1 ≡ 1)
current_thread_id-reused_example =
    current_thread_id-reused 6 8 4 1 (3 ∷ []) before known_before (ground arith) refl new_threads
