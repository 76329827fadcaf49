-- ===== src/AsyncLock/CreatedOnce.antt =====
-- How often a hook is told of the creation of one semaphore.
use laplace.Prelude.{
  ℕ, suc, ◌+◌, ◌≡◌, refl, Bool, true, false, none, some, List, [], ◌∷◌, ◌++◌, if◌then◌else◌, arith,
  Bool-cases, inl, inr, ◌&&◌, not,
}
use laplace.AsyncLock.Calls.{LockCall, semaphore_created, Hook, report}
use laplace.AsyncLock.Semaphore.{
  Shared, ModelAsyncSemaphore, Polled, granted, closed, ModelSemaphoreAcquire, ModelSemaphorePermit,
  add_permits, try_acquire_many, poll, drop_acquire, drop_permit, forget, hook_with_created,
}

-- A step of any user of one semaphore: each has futures and permits of its own.
pub data Step : Type 0 where
  adds : (n : ℕ) → Step
  tries : (n waiter : ℕ) (available : Bool) → Step
  polls : Polled → ModelSemaphoreAcquire → Step
  drops_acquire : ModelSemaphoreAcquire → Step
  drops_permit forgets_permit : ModelSemaphorePermit → Step

unfoldable pub take_step : ModelAsyncSemaphore → Step → Shared → Shared
unfolding add_permits try_acquire_many poll drop_acquire drop_permit forget
take_step this (adds n) s = add_permits this n s
take_step this (tries n waiter available) s = (try_acquire_many this n waiter available s).0
take_step this (polls p a) s = (poll p a s).0.1
take_step this (drops_acquire a) s = drop_acquire a s
take_step this (drops_permit p) s = drop_permit p s
take_step this (forgets_permit p) s = forget p s

unfoldable pub take_steps : ModelAsyncSemaphore → List Step → Shared → Shared
take_steps this [] s = s
take_steps this (x ∷ xs) s = take_steps this xs (take_step this x s)

abbrev pub creations : List LockCall → ℕ
creations [] = 0
creations (semaphore_created _ _ ∷ cs) = suc (creations cs)
creations (_ ∷ cs) = creations cs

creations-append : (cs ds : List LockCall) → creations (cs ++ ds) ≡ creations cs + creations ds
creations-append [] ds = omega arith
creations-append (c ∷ cs) ds = ground (arith, creations-append cs ds)

-- As often as the flag of the semaphore says: once if it is set, else never.
abbrev pub AsFlagged : Hook → Bool → Type 0
AsFlagged none reported = Unit {0}
AsFlagged (some log) reported = creations log ≡ (if reported then 1 else 0)

report-AsFlagged :
    (c : LockCall) (hook : Hook) (reported : Bool)
    → creations (c ∷ []) ≡ 0
    → AsFlagged hook reported
    → AsFlagged (report c hook) reported
report-AsFlagged c none reported z k = tt
report-AsFlagged c (some log) reported z k = ground (arith, creations-append log (c ∷ []))

hook_with_created-AsFlagged :
    (resource permits : ℕ) (hook : Hook) (reported : Bool)
    → AsFlagged hook reported
    → let s' =
        hook_with_created resource permits (record { hook = hook; created_reported = reported }) in
      AsFlagged s'.hook s'.created_reported
unfolding hook_with_created
hook_with_created-AsFlagged resource permits none reported k = tt
hook_with_created-AsFlagged resource permits (some log) true k = k
hook_with_created-AsFlagged resource permits (some log) false k =
    ground (arith, creations-append log (semaphore_created resource permits ∷ []))

take_step-AsFlagged :
    (this : ModelAsyncSemaphore) (x : Step) (s : Shared)
    → AsFlagged s.hook s.created_reported
    → let s' = take_step this x s in AsFlagged s'.hook s'.created_reported
unfolding take_step
take_step-AsFlagged this (adds n) s k =
    report-AsFlagged _ _ _ refl
      (hook_with_created-AsFlagged this.resource this.initial_permits _ _ k)
take_step-AsFlagged this (tries n waiter true) s k =
    report-AsFlagged _ _ _ refl
      (hook_with_created-AsFlagged this.resource this.initial_permits _ _ k)
take_step-AsFlagged this (tries n waiter false) s k = k
take_step-AsFlagged this (polls Polled.pending a) s k = elim (Bool-cases a.requested_emitted) [
  | inl old ↦ rw old k
  | inr new ↦
      rw new (
        report-AsFlagged _ _ _ refl
          (hook_with_created-AsFlagged a.resource a.initial_permits _ _ k))
]
take_step-AsFlagged this (polls granted a) s k =
    report-AsFlagged _ _ _ refl (hook_with_created-AsFlagged a.resource a.initial_permits _ _ k)
take_step-AsFlagged this (polls closed a) s k = k
take_step-AsFlagged this (drops_acquire a) s k =
    elim (Bool-cases (a.requested_emitted && not a.resolved)) [
      | inl waits ↦ rw waits (report-AsFlagged _ _ _ refl k)
      | inr quiet ↦ rw quiet k
    ]
take_step-AsFlagged this (drops_permit p) s k = elim (Bool-cases p.inner) [
  | inl held ↦ rw held (report-AsFlagged _ _ _ refl k)
  | inr gone ↦ rw gone k
]
take_step-AsFlagged this (forgets_permit p) s k = k

-- Whatever the users of one semaphore do and however their steps interleave, a hook that was told
-- of the creation as often as the semaphore's flag says (once if it is set, else never) is so
-- afterwards: it never hears of a second creation.
pub take_steps-AsFlagged :
    (this : ModelAsyncSemaphore) (xs : List Step) (s : Shared)
    → AsFlagged s.hook s.created_reported
    → let s' = take_steps this xs s in AsFlagged s'.hook s'.created_reported
unfolding take_steps
take_steps-AsFlagged this [] s k = k
take_steps-AsFlagged this (x ∷ xs) s k =
    take_steps-AsFlagged this xs (take_step this x s) (take_step-AsFlagged this x s k)
