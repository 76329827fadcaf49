-- ===== src/Scenarios.antt =====
-- Tests of the definitions on concrete inputs, and the theorems at inputs that meet their
-- hypotheses.
mod LockOrder
mod Session
mod TaskSet
mod Hooks
mod AsyncLock
mod Wire
mod Timer
mod Oneshot
mod Notify
mod Cell
mod Interfaces
mod Mpsc
mod Tracked
mod StdLock
mod Projected
