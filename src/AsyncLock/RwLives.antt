-- ===== src/AsyncLock/RwLives.antt =====
-- What a hook is told of one acquisition of the model rwlock, for reading and for writing.
use laplace.Prelude.{ℕ, ◌≡◌, refl, Bool, true, false, none, some, List, [], ◌∷◌}
use laplace.AsyncLock.Calls.{rw_read, rw_write, Hook}
use laplace.AsyncLock.RwLock.{
  ModelAsyncRead, ModelAsyncWrite, read, write, poll_read, poll_write, drop_read, drop_write,
  drop_read_guard, drop_write_guard,
}
use laplace.AsyncLock.Lifetimes.{told}
use laplace.AsyncLock.MutexLife.{answers, ended, locking}

unfoldable pub read_life : List Bool → ModelAsyncRead → Hook → Hook
unfolding poll_read drop_read drop_read_guard
read_life [] this hook = drop_read this hook
read_life (false ∷ ps) this hook =
    let ((this', hook'), _) = poll_read false this hook in read_life ps this' hook'
read_life (true ∷ ps) this hook =
    let ((this', hook'), guard) = poll_read true this hook in
    let dropped = drop_read this' hook' in
    elim guard [ none ↦ dropped | some g ↦ drop_read_guard g dropped ]

waiting-read_life :
    (ps : List Bool) (resource waiter : ℕ) (hook : Hook)
    → read_life ps (record (read resource waiter) { requested_emitted = true }) hook
      ≡ told (ended resource waiter rw_read (answers ps)) hook
unfolding read_life read
waiting-read_life [] resource waiter hook = refl
waiting-read_life (false ∷ ps) resource waiter hook = waiting-read_life ps resource waiter hook
waiting-read_life (true ∷ ps) resource waiter hook = refl

read_life-told :
    (resource waiter : ℕ) (ps : List Bool) (hook : Hook)
    → read_life ps (read resource waiter) hook ≡ told (locking resource waiter rw_read ps) hook
unfolding read_life read
read_life-told resource waiter [] hook = refl
read_life-told resource waiter (false ∷ ps) hook = waiting-read_life ps resource waiter _
read_life-told resource waiter (true ∷ ps) hook = refl

unfoldable pub write_life : List Bool → ModelAsyncWrite → Hook → Hook
unfolding poll_write drop_write drop_write_guard
write_life [] this hook = drop_write this hook
write_life (false ∷ ps) this hook =
    let ((this', hook'), _) = poll_write false this hook in write_life ps this' hook'
write_life (true ∷ ps) this hook =
    let ((this', hook'), guard) = poll_write true this hook in
    let dropped = drop_write this' hook' in
    elim guard [ none ↦ dropped | some g ↦ drop_write_guard g dropped ]

waiting-write_life :
    (ps : List Bool) (resource waiter : ℕ) (hook : Hook)
    → write_life ps (record (write resource waiter) { requested_emitted = true }) hook
      ≡ told (ended resource waiter rw_write (answers ps)) hook
unfolding write_life write
waiting-write_life [] resource waiter hook = refl
waiting-write_life (false ∷ ps) resource waiter hook = waiting-write_life ps resource waiter hook
waiting-write_life (true ∷ ps) resource waiter hook = refl

write_life-told :
    (resource waiter : ℕ) (ps : List Bool) (hook : Hook)
    → write_life ps (write resource waiter) hook ≡ told (locking resource waiter rw_write ps) hook
unfolding write_life write
write_life-told resource waiter [] hook = refl
write_life-told resource waiter (false ∷ ps) hook = waiting-write_life ps resource waiter _
write_life-told resource waiter (true ∷ ps) hook = refl

-- One use of the rwlock for reading, however the polls of its future are answered, tells the hook of
-- a request just if the first poll is not ready, and then either that it was acquired and released
-- or that the waiter was dropped, each time as a read; a use for writing does the same as a write.
pub rw_lives-told :
    (resource waiter : ℕ) (ps : List Bool) (hook : Hook)
    → (read_life ps (read resource waiter) hook ≡ told (locking resource waiter rw_read ps) hook)
      × (write_life ps (write resource waiter) hook
          ≡ told (locking resource waiter rw_write ps) hook)
rw_lives-told resource waiter ps hook =
    (read_life-told resource waiter ps hook, write_life-told resource waiter ps hook)
