-- ===== src/StdLock/Calls.antt =====
-- crates/laplace-model-rt/src/mutex.rs and rwlock.rs: the calls of the model locks.
--
-- A blocking call is cut where it waits: `_asks` is up to there, `_takes` the rest, with what the
-- std lock answers. The state is the log of the lock hook, if one is installed; `engine` says that a
-- spawn hook is installed as well. A guard is known by its resource, and has its std guard from the
-- start to its drop.
use laplace.Prelude.{
  ℕ, Bool, true, false, ◌&&◌, not, Option, none, some, List, [], ◌∷◌, ◌++◌, if◌then◌else◌,
}

-- The calls of `LockHook`.
pub data Call : Type 0 where
  acquire release : (resource : ℕ) → Call

abbrev pub HookCalls : Type 0
HookCalls = Option (List Call)

-- What the std lock answers; `would_block` is that another has it.
pub data Answer : Type 0 where
  granted poisoned would_block : Answer

-- What a call comes to: a guard, in an error or not, the error of a lock that is held, a panic, or
-- that the call still waits.
pub data Called : Type 0 where
  ok poison : (resource : ℕ) → Called
  refused panicked waits : Called

abbrev pub is_installed : HookCalls → Bool
is_installed none = false
is_installed (some _) = true

abbrev pub tell : Call → HookCalls → HookCalls
tell c none = none
tell c (some calls) = some (calls ++ (c ∷ []))

unfoldable pub lock_asks : (resource : ℕ) → HookCalls → HookCalls
lock_asks resource hook = tell (acquire resource) hook

unfoldable pub lock_takes : (resource : ℕ) (engine : Bool) → HookCalls → Answer → Called
lock_takes resource engine hook answer =
    if is_installed hook && engine
    then elim answer [ granted ↦ ok resource | poisoned ↦ poison resource | would_block ↦ panicked ]
    else elim answer [ granted ↦ ok resource | poisoned ↦ poison resource | would_block ↦ waits ]

unfoldable pub try_model_lock : (resource : ℕ) → Answer → HookCalls → Called × HookCalls
try_model_lock resource granted hook = (ok resource, tell (acquire resource) hook)
try_model_lock resource would_block hook = (refused, hook)
try_model_lock resource poisoned hook = (poison resource, tell (acquire resource) hook)

unfoldable pub drop_model_mutex_guard : (resource : ℕ) (panicking : Bool) → HookCalls → HookCalls
drop_model_mutex_guard resource panicking hook =
    if not panicking then tell (release resource) hook else hook

unfoldable pub read_asks : (resource : ℕ) → HookCalls → HookCalls
read_asks resource hook = tell (acquire resource) hook

unfoldable pub read_takes : (resource : ℕ) (engine : Bool) → HookCalls → Answer → Called
read_takes resource engine hook answer =
    if is_installed hook && engine
    then elim answer [ granted ↦ ok resource | poisoned ↦ poison resource | would_block ↦ panicked ]
    else elim answer [ granted ↦ ok resource | poisoned ↦ poison resource | would_block ↦ waits ]

unfoldable pub try_model_read : (resource : ℕ) → Answer → HookCalls → Called × HookCalls
try_model_read resource granted hook = (ok resource, tell (acquire resource) hook)
try_model_read resource would_block hook = (refused, hook)
try_model_read resource poisoned hook = (poison resource, tell (acquire resource) hook)

unfoldable pub drop_model_read_guard : (resource : ℕ) (panicking : Bool) → HookCalls → HookCalls
drop_model_read_guard resource panicking hook =
    if not panicking then tell (release resource) hook else hook

unfoldable pub write_asks : (resource : ℕ) → HookCalls → HookCalls
write_asks resource hook = tell (acquire resource) hook

unfoldable pub write_takes : (resource : ℕ) (engine : Bool) → HookCalls → Answer → Called
write_takes resource engine hook answer =
    if is_installed hook && engine
    then elim answer [ granted ↦ ok resource | poisoned ↦ poison resource | would_block ↦ panicked ]
    else elim answer [ granted ↦ ok resource | poisoned ↦ poison resource | would_block ↦ waits ]

unfoldable pub try_model_write : (resource : ℕ) → Answer → HookCalls → Called × HookCalls
try_model_write resource granted hook = (ok resource, tell (acquire resource) hook)
try_model_write resource would_block hook = (refused, hook)
try_model_write resource poisoned hook = (poison resource, tell (acquire resource) hook)

unfoldable pub drop_model_write_guard : (resource : ℕ) (panicking : Bool) → HookCalls → HookCalls
drop_model_write_guard resource panicking hook =
    if not panicking then tell (release resource) hook else hook
