-- ===== src/AsyncLock/Lifetimes.antt =====
-- What a hook is told of one acquisition, from the first poll of its future to the end of its
-- permit or guard.
use laplace.Prelude.{
  ℕ, ◌≡◌, refl, Bool, true, false, none, some, Option-cases, inl, inr, List, [], ◌∷◌, if◌then◌else◌,
  arith,
}
use laplace.AsyncLock.Calls.{
  LockCall, semaphore_permits, requested, acquired, released, waiter_dropped, semaphore_created,
  Hook, report,
}
use laplace.AsyncLock.Semaphore.{
  Shared, ModelAsyncSemaphore, Polled, granted, closed, ModelSemaphoreAcquire, ModelSemaphorePermit,
  acquire_many, Outcome, permit, hook_with_created, poll, drop_acquire, drop_permit, forget,
}

-- A hook that is told some calls, the first one first.
abbrev pub told : List LockCall → Hook → Hook
told [] hook = hook
told (c ∷ cs) hook = told cs (report c hook)

-- Polls a future until it is ready, or as often as the list says.
unfoldable poll_on :
    List Polled → ModelSemaphoreAcquire → Shared → (ModelSemaphoreAcquire × Shared) × Outcome
unfolding poll
poll_on [] this s = ((this, s), Outcome.pending)
poll_on (Polled.pending ∷ ps) this s =
    let ((this', s'), _) = poll Polled.pending this s in poll_on ps this' s'
poll_on (granted ∷ _) this s = poll granted this s
poll_on (closed ∷ _) this s = poll closed this s

-- The end of a permit: it is dropped, or forgotten.
unfoldable end_permit : Bool → ModelSemaphorePermit → Shared → Shared
unfolding drop_permit forget
end_permit forgets p s = if forgets then forget p s else drop_permit p s

-- A future is polled and dropped, and the permit that it gave, if any, comes to its end.
unfoldable pub semaphore_life : List Polled → Bool → ModelSemaphoreAcquire → Shared → Shared
unfolding poll_on end_permit drop_acquire
semaphore_life ps forgets this s =
    let ((this', s'), out) = poll_on ps this s in
    let dropped = drop_acquire this' s' in
    elim out [
      | Outcome.pending ↦ dropped
      | permit p ↦ end_permit forgets p dropped
      | Outcome.closed ↦ dropped
    ]

-- The first answer of a list of polls that is not `pending`.
abbrev pub answer : List Polled → Polled
answer [] = Polled.pending
answer (Polled.pending ∷ ps) = answer ps
answer (granted ∷ _) = granted
answer (closed ∷ _) = closed

-- What is told after a request that was answered so.
abbrev pub answered : (resource waiter n : ℕ) (forgets : Bool) → Polled → List LockCall
answered resource waiter n forgets Polled.pending = waiter_dropped resource waiter ∷ []
answered resource waiter n forgets closed = []
answered resource waiter n true granted = acquired resource waiter (semaphore_permits n) ∷ []
answered resource waiter n false granted =
    acquired resource waiter (semaphore_permits n)
    ∷ released resource waiter (semaphore_permits n)
    ∷ []

-- What is told of an acquisition, less the creation of the semaphore.
abbrev pub acquisition : (resource waiter n : ℕ) (forgets : Bool) → List Polled → List LockCall
acquisition resource waiter n forgets [] = []
acquisition resource waiter n forgets (Polled.pending ∷ ps) =
    requested resource waiter (semaphore_permits n) ∷ answered resource waiter n forgets (answer ps)
acquisition resource waiter n forgets (granted ∷ _) = answered resource waiter n forgets granted
acquisition resource waiter n forgets (closed ∷ _) = []

-- The creation of the semaphore stands before the first call about it.
abbrev pub created_before : ModelAsyncSemaphore → Bool → List LockCall → List LockCall
created_before this true calls = calls
created_before this false [] = []
created_before this false (c ∷ calls) =
    semaphore_created this.resource this.initial_permits ∷ c ∷ calls

-- A future that was polled before and is not resolved.
abbrev waiting : ModelAsyncSemaphore → ℕ → ℕ → ModelSemaphoreAcquire
waiting this n waiter = record (acquire_many this n waiter) { requested_emitted = true }

waiting-semaphore_life :
    (ps : List Polled) (this : ModelAsyncSemaphore) (n waiter : ℕ) (forgets : Bool)
    (log : List LockCall)
    → (semaphore_life ps forgets
        (waiting this n waiter)
        (record { hook = some log; created_reported = true })).hook
      ≡ told (answered this.resource waiter n forgets (answer ps)) (some log)
unfolding semaphore_life acquire_many hook_with_created
waiting-semaphore_life [] this n waiter forgets log = refl
waiting-semaphore_life (Polled.pending ∷ ps) this n waiter forgets log =
    waiting-semaphore_life ps this n waiter forgets log
waiting-semaphore_life (granted ∷ ps) this n waiter true log = refl
waiting-semaphore_life (granted ∷ ps) this n waiter false log = refl
waiting-semaphore_life (closed ∷ ps) this n waiter forgets log = refl

told-none : (cs : List LockCall) → told cs none ≡ none
told-none [] = refl
told-none (c ∷ cs) = told-none cs

unhooked-semaphore_life :
    (ps : List Polled) (this : ModelSemaphoreAcquire) (forgets reported : Bool)
    → semaphore_life ps forgets this (record { hook = none; created_reported = reported })
      ≡ record { hook = none; created_reported = reported }
unfolding semaphore_life hook_with_created
unhooked-semaphore_life [] this forgets reported = ground arith
unhooked-semaphore_life (Polled.pending ∷ ps) this forgets reported = ground (
  arith,
  unhooked-semaphore_life ps this forgets reported,
  unhooked-semaphore_life ps (record this { requested_emitted = true }) forgets reported,
)
unhooked-semaphore_life (granted ∷ ps) this forgets reported = ground arith
unhooked-semaphore_life (closed ∷ ps) this forgets reported = ground arith

hooked-semaphore_life :
    (this : ModelAsyncSemaphore) (n waiter : ℕ) (ps : List Polled) (forgets reported : Bool)
    (log : List LockCall)
    → (semaphore_life ps forgets
        (acquire_many this n waiter)
        (record { hook = some log; created_reported = reported })).hook
      ≡ told
          (created_before this reported (acquisition this.resource waiter n forgets ps))
          (some log)
unfolding semaphore_life acquire_many hook_with_created
hooked-semaphore_life this n waiter [] forgets reported log = ground arith
hooked-semaphore_life this n waiter (Polled.pending ∷ ps) forgets true log =
    waiting-semaphore_life ps this n waiter forgets _
hooked-semaphore_life this n waiter (Polled.pending ∷ ps) forgets false log =
    waiting-semaphore_life ps this n waiter forgets _
hooked-semaphore_life this n waiter (granted ∷ ps) forgets reported log = ground arith
hooked-semaphore_life this n waiter (closed ∷ ps) forgets reported log = ground arith

-- One acquisition of a semaphore, however its polls are answered and whether its permit is
-- dropped or forgotten, tells an installed hook of a request just if the first poll is pending, then
-- of the end of the wait (a permit, or the dropped future, or nothing if the semaphore was closed)
-- and of the release of a permit that is not forgotten; the creation of the semaphore comes before
-- the first of these calls unless it was told before. No hook is told nothing.
pub semaphore_life-told :
    (this : ModelAsyncSemaphore) (n waiter : ℕ) (ps : List Polled) (forgets : Bool) (s : Shared)
    → (semaphore_life ps forgets (acquire_many this n waiter) s).hook
      ≡ told
          (created_before this s.created_reported (acquisition this.resource waiter n forgets ps))
          s.hook
semaphore_life-told this n waiter ps forgets s = elim (Option-cases s.hook) [
  | inl e ↦ ground (
    arith,
    unhooked-semaphore_life ps (acquire_many this n waiter) forgets s.created_reported,
    told-none
        (created_before this s.created_reported (acquisition this.resource waiter n forgets ps)),
  )
  | inr (log, e) ↦
      ground (arith, hooked-semaphore_life this n waiter ps forgets s.created_reported log)
]
