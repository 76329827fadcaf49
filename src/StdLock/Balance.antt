-- ===== src/StdLock/Balance.antt =====
-- What the lock hook is told of the model locks of threads, however their uses interleave.
use laplace.Prelude.{
  one, at, ℕ, ◌+◌, ◌≡◌, refl, Bool, true, false, Option, none, some, List, [], ◌∷◌, arith,
}
use laplace.StdLock.Calls.{
  HookCalls, Answer, granted, poisoned, would_block, lock_takes, read_takes, write_takes,
  try_model_lock, try_model_read, try_model_write,
}
use laplace.StdLock.Guards.{
  LockWay, mutex, reading, writing, UsePhase, waiting, holding, done, lost, LockUse, LockWorld,
  LockStep, asks, tries, takes, drops, take_lock, try_for, phase_after, take_on, take_lock_step,
  take_lock_steps, ask_for_lem, drop_lock_lem,
}
use laplace.StdLock.Counts.{
  is_waiting, is_holding, is_lost, Balanced, begun-Balanced, moved-Balanced, ended-Balanced,
  failed-Balanced,
}

take_lock_lem :
    (way : LockWay) (r : ℕ) (engine : Bool) (hook : HookCalls) (a : Answer)
    → one (is_waiting (phase_after (take_lock way r engine hook a)))
        + (one (is_holding (phase_after (take_lock way r engine hook a)))
            + one (is_lost (phase_after (take_lock way r engine hook a))))
      ≡ 1
unfolding take_lock lock_takes read_takes write_takes
take_lock_lem mutex r engine hook a = ground arith
take_lock_lem reading r engine hook a = ground arith
take_lock_lem writing r engine hook a = ground arith

module _ (r : ℕ) where
  tried-Balanced :
      (way : LockWay) (s : ℕ) (a : Answer) (w : LockWorld)
      → Balanced r w
      → Balanced r (take_lock_step false (tries way s a) w)
  unfolding take_lock_step try_for try_model_lock try_model_read try_model_write
  tried-Balanced mutex s granted w b = begun-Balanced r mutex s holding w refl b
  tried-Balanced mutex s poisoned w b = begun-Balanced r mutex s holding w refl b
  tried-Balanced mutex s would_block w b = failed-Balanced r mutex s w b
  tried-Balanced reading s granted w b = begun-Balanced r reading s holding w refl b
  tried-Balanced reading s poisoned w b = begun-Balanced r reading s holding w refl b
  tried-Balanced reading s would_block w b = failed-Balanced r reading s w b
  tried-Balanced writing s granted w b = begun-Balanced r writing s holding w refl b
  tried-Balanced writing s poisoned w b = begun-Balanced r writing s holding w refl b
  tried-Balanced writing s would_block w b = failed-Balanced r writing s w b

  taken-Balanced :
      (engine : Bool) (i : ℕ) (a : Answer) (u : LockUse) (w : LockWorld)
      → at i w.uses ≡ some u
      → Balanced r w
      → Balanced r (take_on engine (takes i a) u w)
  unfolding take_on
  taken-Balanced engine i a u w found b = go u.phase refl
    where
      go : (p : UsePhase) → u.phase ≡ p → Balanced r (take_on engine (takes i a) u w)
      go waiting h = rw (h) (
          moved-Balanced r i u (phase_after (take_lock u.way u.resource engine w.hook a)) w found
            (rw (h) (take_lock_lem u.way u.resource engine w.hook a)) b)
      go holding h = rw (h) b
      go done h = rw (h) b
      go lost h = rw (h) b

  dropped-Balanced :
      (engine : Bool) (i : ℕ) (panicking : Bool) (u : LockUse) (w : LockWorld)
      → at i w.uses ≡ some u
      → Balanced r w
      → Balanced r (take_on engine (drops i panicking) u w)
  unfolding take_on
  dropped-Balanced engine i panicking u w found b = go u.phase panicking refl
    where
      go :
          (p : UsePhase) (panicking : Bool)
          → u.phase ≡ p
          → Balanced r (take_on engine (drops i panicking) u w)
      go waiting panicking h = rw (h) b
      go holding true h =
          rw (h, drop_lock_lem u.way u.resource true w.hook)
            (moved-Balanced r i u lost w found (rw (h) refl) b)
      go holding false h =
          rw (h, drop_lock_lem u.way u.resource false w.hook) (ended-Balanced r i u w found h b)
      go done panicking h = rw (h) b
      go lost panicking h = rw (h) b

  with_use-Balanced :
      (engine : Bool) (i : ℕ) (s : LockStep) (w : LockWorld) (found : Option LockUse)
      → ((u : LockUse) → found ≡ some u → Balanced r (take_on engine s u w))
      → Balanced r w
      → Balanced r (elim found [ none ↦ w | some u ↦ take_on engine s u w ])
  with_use-Balanced engine i s w none on b = b
  with_use-Balanced engine i s w (some u) on b = on u refl

  step-Balanced :
      (engine : Bool) (s : LockStep) (w : LockWorld)
      → Balanced r w
      → Balanced r (take_lock_step engine s w)
  unfolding take_lock_step
  step-Balanced engine (asks way s) w b =
      rw (ask_for_lem way s w.hook) (begun-Balanced r way s waiting w refl b)
  step-Balanced engine (tries way s a) w b = tried-Balanced way s a w b
  step-Balanced engine (takes i a) w b =
      with_use-Balanced engine i (takes i a) w (at i w.uses)
        (λ u found. taken-Balanced engine i a u w found b) b
  step-Balanced engine (drops i p) w b =
      with_use-Balanced engine i (drops i p) w (at i w.uses)
        (λ u found. dropped-Balanced engine i p u w found b) b

  all-Balanced :
      (engine : Bool) (ss : List LockStep) (w : LockWorld)
      → Balanced r w
      → Balanced r (take_lock_steps engine ss w)
  unfolding take_lock_steps
  all-Balanced engine [] w b = b
  all-Balanced engine (s ∷ ss) w b =
      all-Balanced engine ss (take_lock_step engine s w) (step-Balanced engine s w b)

abbrev pub new_world : LockWorld
new_world = record { uses = []; hook = some [] }

-- Whatever threads do with their model locks while a lock hook is installed from the beginning, with
-- an engine or not, and however the std locks answer: for each resource, the hook was told of one
-- acquisition for each release that it was told of, for each blocking call that still waits, for each
-- guard that there is, and for each use that was lost to a panic (in the call under an engine, or in
-- the thread that drops the guard), of which no release is told.
pub take_lock_steps-Balanced :
    (r : ℕ) (engine : Bool) (ss : List LockStep) → Balanced r (take_lock_steps engine ss new_world)
take_lock_steps-Balanced r engine ss =
    all-Balanced r engine ss new_world (record { installed = refl; balance = refl })
