-- ===== src/StdLock/Guards.antt =====
-- Threads that use model locks in any order: each use is a call and, if it gives a guard, its drop.
use laplace.Prelude.{
  at, set, ℕ, ◌≡◌, refl, Bool, true, false, none, some, List, [], ◌∷◌, ◌++◌, if◌then◌else◌,
}
use laplace.StdLock.Calls.{
  acquire, release, HookCalls, Answer, Called, ok, poison, refused, panicked, waits, tell,
  lock_asks, lock_takes, try_model_lock, drop_model_mutex_guard, read_asks, read_takes,
  try_model_read, drop_model_read_guard, write_asks, write_takes, try_model_write,
  drop_model_write_guard,
}

pub data LockWay : Type 0 where
  mutex reading writing : LockWay

-- The call waits; the guard is there; it has been dropped; the call panicked, or the guard was dropped
-- by a thread that panics.
pub data UsePhase : Type 0 where
  waiting holding done lost : UsePhase

pub record LockUse : Type 0 where
  pub way : LockWay
  pub resource : ℕ
  pub phase : UsePhase

pub record LockWorld : Type 0 where
  pub uses : List LockUse
  pub hook : HookCalls

-- Uses have their numbers in the order of the steps that begin them. A try that fails begins one that is done.
pub data LockStep : Type 0 where
  asks : (way : LockWay) (resource : ℕ) → LockStep
  tries : (way : LockWay) (resource : ℕ) (answer : Answer) → LockStep
  takes : (use_no : ℕ) (answer : Answer) → LockStep
  drops : (use_no : ℕ) (panicking : Bool) → LockStep

unfoldable pub ask_for : LockWay → (resource : ℕ) → HookCalls → HookCalls
unfolding lock_asks read_asks write_asks
ask_for mutex r hook = lock_asks r hook
ask_for reading r hook = read_asks r hook
ask_for writing r hook = write_asks r hook

unfoldable pub take_lock : LockWay → (resource : ℕ) (engine : Bool) → HookCalls → Answer → Called
unfolding lock_takes read_takes write_takes
take_lock mutex r engine hook a = lock_takes r engine hook a
take_lock reading r engine hook a = read_takes r engine hook a
take_lock writing r engine hook a = write_takes r engine hook a

unfoldable pub try_for : LockWay → (resource : ℕ) → Answer → HookCalls → Called × HookCalls
unfolding try_model_lock try_model_read try_model_write
try_for mutex r a hook = try_model_lock r a hook
try_for reading r a hook = try_model_read r a hook
try_for writing r a hook = try_model_write r a hook

unfoldable pub drop_lock : LockWay → (resource : ℕ) (panicking : Bool) → HookCalls → HookCalls
unfolding drop_model_mutex_guard drop_model_read_guard drop_model_write_guard
drop_lock mutex r p hook = drop_model_mutex_guard r p hook
drop_lock reading r p hook = drop_model_read_guard r p hook
drop_lock writing r p hook = drop_model_write_guard r p hook

abbrev pub in_phase : UsePhase → LockUse → LockUse
in_phase p u = record u { phase = p }

abbrev pub phase_after : Called → UsePhase
phase_after (ok _) = holding
phase_after (poison _) = holding
phase_after refused = done
phase_after panicked = lost
phase_after waits = waiting

abbrev pub phase_dropped : (panicking : Bool) → UsePhase
phase_dropped true = lost
phase_dropped false = done

-- What a step does to the use with its number, in the phase where it can be taken.
unfoldable pub take_on : (engine : Bool) → LockStep → LockUse → LockWorld → LockWorld
unfolding take_lock drop_lock
take_on engine (takes i a) u w = elim u.phase [
  | waiting ↦ record w {
    uses = set i (in_phase (phase_after (take_lock u.way u.resource engine w.hook a)) u) w.uses;
  }
  | _ ↦ w
]
take_on engine (drops i p) u w = elim u.phase [
  | holding ↦ record w {
    uses = set i (in_phase (phase_dropped p) u) w.uses;
    hook = drop_lock u.way u.resource p w.hook;
  }
  | _ ↦ w
]
take_on engine _ u w = w

abbrev pub with_use : (engine : Bool) → ℕ → LockStep → LockWorld → LockWorld
with_use engine i s w = elim (at i w.uses) [ none ↦ w | some u ↦ take_on engine s u w ]

unfoldable pub take_lock_step : (engine : Bool) → LockStep → LockWorld → LockWorld
unfolding ask_for try_for take_on
take_lock_step engine (asks way r) w = record {
  uses = w.uses ++ (record { way = way; resource = r; phase = waiting } ∷ []);
  hook = ask_for way r w.hook;
}
take_lock_step engine (tries way r a) w =
    let (outcome, hook) = try_for way r a w.hook in
    record {
      uses = w.uses ++ (record { way = way; resource = r; phase = phase_after outcome } ∷ []);
      hook = hook;
    }
take_lock_step engine (takes i a) w = with_use engine i (takes i a) w
take_lock_step engine (drops i p) w = with_use engine i (drops i p) w

unfoldable pub take_lock_steps : (engine : Bool) → List LockStep → LockWorld → LockWorld
unfolding take_lock_step
take_lock_steps engine [] w = w
take_lock_steps engine (s ∷ ss) w = take_lock_steps engine ss (take_lock_step engine s w)

pub ask_for_lem :
    (way : LockWay) (r : ℕ) (hook : HookCalls) → ask_for way r hook ≡ tell (acquire r) hook
unfolding ask_for
ask_for_lem mutex r hook = refl
ask_for_lem reading r hook = refl
ask_for_lem writing r hook = refl

pub drop_lock_lem :
    (way : LockWay) (r : ℕ) (p : Bool) (hook : HookCalls)
    → drop_lock way r p hook ≡ (if p then hook else tell (release r) hook)
unfolding drop_lock
drop_lock_lem mutex r true hook = refl
drop_lock_lem mutex r false hook = refl
drop_lock_lem reading r true hook = refl
drop_lock_lem reading r false hook = refl
drop_lock_lem writing r true hook = refl
drop_lock_lem writing r false hook = refl
