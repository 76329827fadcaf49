-- ===== src/Scenarios/AsyncLock.antt =====
-- Lives of acquisitions that wait, and two users of one semaphore.
use laplace.Prelude.{◌≡◌, refl, true, false, some, List, [], ◌∷◌}
use laplace.AsyncLock.Calls.{
  mutex, rw_read, rw_write, requested, acquired, released, semaphore_created, semaphore_permits,
}
use laplace.AsyncLock.Semaphore.{
  Shared, ModelAsyncSemaphore, Polled, granted, acquire_many, hook_with_created,
}
use laplace.AsyncLock.Mutex.{lock}
use laplace.AsyncLock.Lifetimes.{
  told, semaphore_life, created_before, acquisition, semaphore_life-told,
}
use laplace.AsyncLock.MutexLife.{lock_life, locking, lock_life-told}
use laplace.AsyncLock.RwLock.{read, write}
use laplace.AsyncLock.RwLives.{read_life, write_life, rw_lives-told}
use laplace.AsyncLock.CreatedOnce.{Step, tries, polls, take_steps, AsFlagged, take_steps-AsFlagged}

abbrev semaphore : ModelAsyncSemaphore
semaphore = record { resource = 6; initial_permits = 2 }

abbrev shared : Shared
shared = record { hook = some []; created_reported = false }

abbrev waits : List Polled
waits = Polled.pending ∷ Polled.pending ∷ granted ∷ []

semaphore_trace :
    (semaphore_life waits false (acquire_many semaphore 2 1) shared).hook
    ≡ some (
        semaphore_created 6 2
        ∷ requested 6 1 (semaphore_permits 2)
        ∷ acquired 6 1 (semaphore_permits 2)
        ∷ released 6 1 (semaphore_permits 2)
        ∷ [])
unfolding semaphore_life acquire_many hook_with_created
semaphore_trace = refl

semaphore_life-told_example :
    (semaphore_life waits false (acquire_many semaphore 2 1) shared).hook
    ≡ told (created_before semaphore false (acquisition 6 1 2 false waits)) (some [])
semaphore_life-told_example = semaphore_life-told semaphore 2 1 waits false shared

lock_life-told_example :
    lock_life (false ∷ false ∷ true ∷ []) (lock 5 1) (some [])
    ≡ told (locking 5 1 mutex (false ∷ false ∷ true ∷ [])) (some [])
lock_life-told_example = lock_life-told 5 1 (false ∷ false ∷ true ∷ []) (some [])

abbrev steps : List Step
steps =
    polls Polled.pending (acquire_many semaphore 1 1)
    ∷ tries 1 2 true
    ∷ polls granted (acquire_many semaphore 1 1)
    ∷ []

take_steps-AsFlagged_example :
    let s = take_steps semaphore steps shared in AsFlagged s.hook s.created_reported
take_steps-AsFlagged_example = take_steps-AsFlagged semaphore steps shared refl

rw_lives-told_example :
    (read_life (false ∷ []) (read 5 2) (some [])
      ≡ told (locking 5 2 rw_read (false ∷ [])) (some []))
    × (write_life (false ∷ []) (write 5 2) (some [])
        ≡ told (locking 5 2 rw_write (false ∷ [])) (some []))
rw_lives-told_example = rw_lives-told 5 2 (false ∷ []) (some [])
