-- ===== src/Session/Reused.antt =====
-- Logical thread ids: what a reset of their counter does.
use laplace.Prelude.{
  ℕ, ◌+◌, ◌^◌, ◌<◌, ◌≡◌, inr, some, List, [], ◌∷◌, lookup, lookup-insert, length, Elem, ◌++◌, none,
  arith,
}
use laplace.Session.Sinks.{Process, current_thread_id, begin}
use laplace.Session.Ids.{current_thread_id-other, current_thread_id-known}

-- Different threads, none of which has an id.
abbrev pub AllNew : List ℕ → List (ℕ × ℕ) → Type 0
AllNew [] ids = Unit
AllNew (os ∷ rest) ids = (lookup os ids ≡ none) × (¬ Elem os rest) × AllNew rest ids

module _ {J : Type 0} where
  -- The threads that ask for their ids, one after another.
  unfoldable pub ask_all : List ℕ → Process J → Process J
  ask_all [] s = s
  ask_all (os ∷ rest) s = ask_all rest (current_thread_id os s).0

  AllNew-asked :
      (os : ℕ) (rest : List ℕ) (s : Process J)
      → ¬ Elem os rest
      → AllNew rest s.probe_thread_id
      → AllNew rest (current_thread_id os s).0.probe_thread_id
  unfolding current_thread_id
  AllNew-asked os [] s fresh k = tt
  AllNew-asked os (t ∷ rest) s fresh k = (
    ground (arith, lookup-insert os t s.next_implicit_thread_id s.probe_thread_id),
    k.1,
    AllNew-asked os rest s (λ e. fresh (inr e)) k.2,
  )

  -- New threads that ask get the numbers of the counter one after another.
  ask_all-counts :
      (threads : List ℕ) (b : ℕ) (s : Process J)
      → AllNew (threads ++ (b ∷ [])) s.probe_thread_id
      → s.next_implicit_thread_id + length threads < 2 ^ 64
      → (current_thread_id b (ask_all threads s)).1 ≡ s.next_implicit_thread_id + length threads
  unfolding ask_all current_thread_id
  ask_all-counts [] b s k room = ground (arith, k.0)
  ask_all-counts (os ∷ rest) b s k room =
      let next : (current_thread_id os s).0.next_implicit_thread_id
          ≡ s.next_implicit_thread_id + 1 =
        ground (arith, k.0) in
      omega (
        arith,
        next,
        ask_all-counts rest b (current_thread_id os s).0
            (AllNew-asked os (rest ++ (b ∷ [])) s k.1 k.2) (omega (arith, next)),
      )

  ask_all-kept :
      (threads : List ℕ) (a id : ℕ) (s : Process J)
      → lookup a s.probe_thread_id ≡ some id
      → lookup a (ask_all threads s).probe_thread_id ≡ some id
  unfolding ask_all
  ask_all-kept [] a id s h = h
  ask_all-kept (os ∷ rest) a id s h =
      ask_all-kept rest a id (current_thread_id os s).0 (current_thread_id-other a os id s h)

  -- A new session starts the counter again, and a thread that already had an id keeps it: after as
  -- many different new threads as that id says have asked for their ids in the session, and nothing
  -- else was done with ids, the next new thread gets the id of the old one.
  pub current_thread_id-reused :
      (tx a b id : ℕ) (threads : List ℕ) (s : Process J)
      → lookup a s.probe_thread_id ≡ some id
      → id < 2 ^ 64
      → length threads ≡ id
      → AllNew (threads ++ (b ∷ [])) s.probe_thread_id
      → let now = ask_all threads (begin tx s) in
        ((current_thread_id a now).1 ≡ id) × ((current_thread_id b now).1 ≡ id)
  unfolding begin
  current_thread_id-reused tx a b id threads s old small many new = (
    current_thread_id-known a id (ask_all threads (begin tx s))
        (ask_all-kept threads a id (begin tx s) old),
    ground (arith, ask_all-counts threads b (begin tx s) new (omega (arith, many, small)), many),
  )
