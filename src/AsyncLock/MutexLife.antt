-- ===== src/AsyncLock/MutexLife.antt =====
-- What a hook is told of one acquisition of the model mutex.
use laplace.Prelude.{ℕ, ◌≡◌, refl, Bool, true, false, none, some, List, [], ◌∷◌}
use laplace.AsyncLock.Calls.{
  LockCall, AsyncAcquireKind, mutex, requested, acquired, released, waiter_dropped, Hook,
}
use laplace.AsyncLock.Mutex.{ModelAsyncLock, lock, poll_lock, drop_lock, drop_guard}
use laplace.AsyncLock.Lifetimes.{told}

-- The future is polled until it is ready, or as often as the list says, and dropped; then the
-- guard that it gave, if any, is dropped.
unfoldable pub lock_life : List Bool → ModelAsyncLock → Hook → Hook
unfolding poll_lock drop_lock drop_guard
lock_life [] this hook = drop_lock this hook
lock_life (false ∷ ps) this hook =
    let ((this', hook'), _) = poll_lock false this hook in lock_life ps this' hook'
lock_life (true ∷ ps) this hook =
    let ((this', hook'), guard) = poll_lock true this hook in
    let dropped = drop_lock this' hook' in
    elim guard [ none ↦ dropped | some g ↦ drop_guard g dropped ]

-- Some poll of the list is ready.
abbrev pub answers : List Bool → Bool
answers [] = false
answers (false ∷ ps) = answers ps
answers (true ∷ _) = true

-- What is told once it is known whether the lock was got.
abbrev pub ended : (resource waiter : ℕ) (kind : AsyncAcquireKind) → Bool → List LockCall
ended resource waiter kind false = waiter_dropped resource waiter ∷ []
ended resource waiter kind true = acquired resource waiter kind ∷ released resource waiter kind ∷ []

abbrev pub locking : (resource waiter : ℕ) (kind : AsyncAcquireKind) → List Bool → List LockCall
locking resource waiter kind [] = []
locking resource waiter kind (false ∷ ps) =
    requested resource waiter kind ∷ ended resource waiter kind (answers ps)
locking resource waiter kind (true ∷ _) = ended resource waiter kind true

waiting-lock_life :
    (ps : List Bool) (resource waiter : ℕ) (hook : Hook)
    → lock_life ps (record (lock resource waiter) { requested_emitted = true }) hook
      ≡ told (ended resource waiter mutex (answers ps)) hook
unfolding lock_life lock
waiting-lock_life [] resource waiter hook = refl
waiting-lock_life (false ∷ ps) resource waiter hook = waiting-lock_life ps resource waiter hook
waiting-lock_life (true ∷ ps) resource waiter hook = refl

-- One use of the mutex, however the polls of its future are answered, tells the hook of a request
-- just if the first poll is not ready, and then either that the lock was acquired and released or
-- that the waiter was dropped; a future that is dropped before its first poll tells nothing.
pub lock_life-told :
    (resource waiter : ℕ) (ps : List Bool) (hook : Hook)
    → lock_life ps (lock resource waiter) hook ≡ told (locking resource waiter mutex ps) hook
unfolding lock_life lock
lock_life-told resource waiter [] hook = refl
lock_life-told resource waiter (false ∷ ps) hook = waiting-lock_life ps resource waiter _
lock_life-told resource waiter (true ∷ ps) hook = refl
