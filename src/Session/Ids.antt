-- ===== src/Session/Ids.antt =====
-- Logical thread ids: what makes them distinct.
use laplace.Prelude.{
  ℕ, ◌+◌, ◌^◌, ◌<◌, ◌≤◌, ◌≡◌, ◌≢◌, inl, inr, some, List, [], ◌∷◌, lookup, lookup-insert, length,
  refl, Option-cases, arith,
}
use laplace.Event.{ProbeEvent}
use laplace.Session.Sinks.{
  Process, current_thread_id, begin, emit, sink, clear_probe_sender, set_current_task_id,
  clear_current_task_id,
}

-- What threads do in a session, but that none of them installs a sink, which starts the counter
-- again, or sets its id itself.
pub data Act (J : Type 0) : Type 0 where
  asks : (os : ℕ) → Act J
  emits : (os : ℕ) (event : ProbeEvent J) → Act J
  clears_sender : (os : ℕ) → Act J
  sets_task : (os id : ℕ) → Act J
  clears_task : (os : ℕ) → Act J

module _ {J : Type 0} where
  unfoldable pub perform : Act J → Process J → Process J
  unfolding emit clear_probe_sender set_current_task_id clear_current_task_id
  perform (asks os) s = (current_thread_id os s).0
  perform (emits os event) s = emit os event s
  perform (clears_sender os) s = clear_probe_sender os s
  perform (sets_task os id) s = set_current_task_id os id s
  perform (clears_task os) s = clear_current_task_id os s

  unfoldable pub perform_all : List (Act J) → Process J → Process J
  unfolding perform
  perform_all [] s = s
  perform_all (act ∷ acts) s = perform_all acts (perform act s)

  -- The threads that ask for their ids, one after another.
  unfoldable pub ask_all : List ℕ → Process J → Process J
  ask_all [] s = s
  ask_all (os ∷ rest) s = ask_all rest (current_thread_id os s).0

  -- No two threads have one id, and every id is below the counter.
  pub record Distinct (s : Process J) : Type 0 where
    pub below : (os id : ℕ) → lookup os s.probe_thread_id ≡ some id → id < s.next_implicit_thread_id
    pub apart :
        (a b id : ℕ)
        → lookup a s.probe_thread_id ≡ some id
        → lookup b s.probe_thread_id ≡ some id
        → a ≡ b

  begin-Distinct : (tx : ℕ) (s : Process J) → s.probe_thread_id ≡ [] → Distinct (begin tx s)
  unfolding lookup begin
  begin-Distinct tx s none_yet = record {
    below = λ os id h. absurd (ground arith);
    apart = λ a b id h k. absurd (ground arith);
  }

  current_thread_id-Distinct :
      (os : ℕ) (s : Process J)
      → s.next_implicit_thread_id + 1 < 2 ^ 64
      → Distinct s
      → Distinct (current_thread_id os s).0
        × ((current_thread_id os s).0.next_implicit_thread_id ≤ s.next_implicit_thread_id + 1)
  unfolding current_thread_id
  current_thread_id-Distinct os s room d = elim (Option-cases (lookup os s.probe_thread_id)) [
    | inr (id, old) ↦ rw (old, current_thread_id) (d, omega arith)
    | inl new ↦
        rw (new, current_thread_id)
          (
            record {
              below = λ t id h. ground (
                arith,
                lookup-insert os t s.next_implicit_thread_id s.probe_thread_id,
                d.below t id,
              );
              apart = λ a b id h k. ground (
                arith,
                lookup-insert os a s.next_implicit_thread_id s.probe_thread_id,
                lookup-insert os b s.next_implicit_thread_id s.probe_thread_id,
                d.below a id,
                d.below b id,
                d.apart a b id,
              );
            },
            omega arith,
          )
  ]

  emit-ids :
      (os : ℕ) (e : ProbeEvent J) (s : Process J)
      → ((emit os e s).probe_thread_id ≡ s.probe_thread_id)
        × ((emit os e s).next_implicit_thread_id ≡ s.next_implicit_thread_id)
  unfolding emit
  emit-ids os e s = elim (Option-cases (sink os s)) [
    | inl nowhere ↦ rw (nowhere, emit) (refl, refl)
    | inr (tx, there) ↦ rw (there, emit) (refl, refl)
  ]

  perform-Distinct :
      (act : Act J) (s : Process J)
      → s.next_implicit_thread_id + 1 < 2 ^ 64
      → Distinct s
      → Distinct (perform act s)
        × ((perform act s).next_implicit_thread_id ≤ s.next_implicit_thread_id + 1)
  unfolding perform clear_probe_sender set_current_task_id clear_current_task_id
  perform-Distinct (asks os) s room d = current_thread_id-Distinct os s room d
  perform-Distinct (emits os e) s room d =
      let (ids, counter) = emit-ids os e s in
      (
        record {
          below = λ t id h. ground (arith, ids, counter, d.below t id);
          apart = λ a b id h k. ground (arith, ids, d.apart a b id);
        },
        omega (arith, counter),
      )
  perform-Distinct (clears_sender os) s room d =
      (record { below = d.below; apart = d.apart }, omega arith)
  perform-Distinct (sets_task os id) s room d =
      (record { below = d.below; apart = d.apart }, omega arith)
  perform-Distinct (clears_task os) s room d =
      (record { below = d.below; apart = d.apart }, omega arith)

  perform_all-Distinct :
      (acts : List (Act J)) (s : Process J)
      → s.next_implicit_thread_id + length acts < 2 ^ 64
      → Distinct s
      → Distinct (perform_all acts s)
        × ((perform_all acts s).next_implicit_thread_id ≤ s.next_implicit_thread_id + length acts)
  unfolding perform_all
  perform_all-Distinct [] s room d = (d, omega arith)
  perform_all-Distinct (act ∷ rest) s room d =
      let (d', le) = perform-Distinct act s (omega arith) d in
      let (d'', le') = perform_all-Distinct rest (perform act s) (omega arith) d' in
      (d'', omega arith)

  current_thread_id-lookup :
      (os : ℕ) (s : Process J)
      → lookup os (current_thread_id os s).0.probe_thread_id ≡ some (current_thread_id os s).1
  unfolding current_thread_id
  current_thread_id-lookup os s =
      ground (arith, lookup-insert os os s.next_implicit_thread_id s.probe_thread_id)

  pub current_thread_id-other :
      (a b id : ℕ) (s : Process J)
      → lookup a s.probe_thread_id ≡ some id
      → lookup a (current_thread_id b s).0.probe_thread_id ≡ some id
  unfolding current_thread_id
  current_thread_id-other a b id s h =
      ground (arith, lookup-insert b a s.next_implicit_thread_id s.probe_thread_id)

  pub current_thread_id-known :
      (os id : ℕ) (s : Process J)
      → lookup os s.probe_thread_id ≡ some id
      → (current_thread_id os s).1 ≡ id
  unfolding current_thread_id
  current_thread_id-known os id s h = ground arith

  -- In a session that begins when no thread has an id, as long as no thread sets its id itself,
  -- installs a sink or begins a session, and after fewer than 2 ^ 64 - 2 acts of threads (that ask
  -- for their ids, emit, clear their sink, set or clear their task): two different threads that ask
  -- for their logical ids get different ones, and a thread that asks again gets the same one.
  pub current_thread_id-distinct :
      (tx : ℕ) (s : Process J) (acts : List (Act J)) (a b : ℕ)
      → s.probe_thread_id ≡ []
      → length acts + 2 < 2 ^ 64
      → a ≢ b
      → let s0 = perform_all acts (begin tx s) in
        let (s1, id) = current_thread_id a s0 in
        let (s2, other) = current_thread_id b s1 in (id ≢ other) × ((current_thread_id a s2).1 ≡ id)
  unfolding begin
  current_thread_id-distinct tx s acts a b none_yet room ne =
      let s0 : Process J = perform_all acts (begin tx s) in
      let s1 : Process J = (current_thread_id a s0).0 in
      let d0 =
        perform_all-Distinct acts (begin tx s) (omega arith) (begin-Distinct tx s none_yet) in
      let d1 = current_thread_id-Distinct a s0 (omega (arith, d0.1)) d0.0 in
      let d2 = current_thread_id-Distinct b s1 (omega (arith, d0.1, d1.1)) d1.0 in
      let kept =
        current_thread_id-other a b (current_thread_id a s0).1 s1 (current_thread_id-lookup a s0) in
      (
        (λ same. ne (
            d2.0.apart a b (current_thread_id a s0).1 kept
              (rw same (current_thread_id-lookup b s1)))),
        current_thread_id-known a (current_thread_id a s0).1 (current_thread_id b s1).0 kept,
      )
