-- ===== src/Scenarios/StdLock.antt =====
-- One thread has a mutex, and another waits for it, tries it and takes it.
use laplace.Prelude.{true, false, some, List, [], ◌∷◌, ◌≡◌, refl}
use laplace.StdLock.Calls.{acquire, release, granted, poisoned, would_block}
use laplace.StdLock.Guards.{mutex, reading, LockStep, asks, tries, takes, drops, take_lock_steps}
use laplace.StdLock.Counts.{Balanced}
use laplace.StdLock.Balance.{new_world, take_lock_steps-Balanced}

abbrev shared_mutex : List LockStep
shared_mutex =
    tries mutex 1 granted
    ∷ asks mutex 1
    ∷ takes 1 would_block
    ∷ tries mutex 1 would_block
    ∷ drops 0 true
    ∷ takes 1 poisoned
    ∷ asks reading 2
    ∷ takes 3 granted
    ∷ drops 3 false
    ∷ []

take_lock_steps-Balanced_example : Balanced 1 (take_lock_steps false shared_mutex new_world)
take_lock_steps-Balanced_example = take_lock_steps-Balanced 1 false shared_mutex

shared_mutex-calls :
    (take_lock_steps false shared_mutex new_world).hook
    ≡ some (acquire 1 ∷ acquire 1 ∷ acquire 2 ∷ release 2 ∷ [])
unfolding take_lock_steps
shared_mutex-calls = refl
