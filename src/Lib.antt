-- ===== src/Lib.antt =====
-- Verification of Laplace, a toolkit that finds concurrency bugs in Rust programs.
--
-- Instrumented code reports what it does as probe events. A capture session collects them, a
-- verifier looks in them for locks that are taken in opposite orders, and a transport sends some of
-- them to a service in a fixed binary form, which a decoder reads. Annotated async code runs on
-- model primitives, which wrap the real ones and report each boundary (a request, an acquisition, a
-- poll of a task) to hooks that an engine installs.
--
-- Prelude: names of the libraries, Boolean tests, lists and association lists over native numbers.
--
-- Event: crates/laplace-probe-sdk/src/event.rs, the type `ProbeEvent` with all its variants and
-- `resource_name`.
--
-- LockOrder: crates/laplace-probe-sdk/src/session.rs, `find_lock_order_cycle` and
-- `run_verification_from`. Edges has the hold modes and the set of edges, Tracker the hold map and
-- one round of the loop (`step`), Verify the loop and the verdict. `held_by_thread` is an association
-- list, `order_edges` a list with no duplicates in it. Trace says what a history of acquisitions and
-- releases is to the verifier, with no maps, and what an inversion is; Nesting what each thread really
-- holds; Holding, Recording, Invariant, Steps and Scans
-- relate the loop to it; Verdict and Discipline have the results.
--
-- Session: the sinks, the capture session and the logical ids of the same file. Sinks has the state,
-- a record `Process` of the thread-local cells and the process-wide slots, and one function for each
-- operation; Ids, Reused and Captures have the results.
--
-- Wire: crates/laplace-probe-common/src/lib.rs (Raw), its decoder.rs (Decoded, Decoder), and
-- `probe_event_to_raw` of session.rs (Sending). The decoder's `match` on the type is the function
-- `decoded`. Encoding gives each decoded event a raw event that carries it, and Carrying says what a
-- raw event means; Roundtrip and Carrying have the results.
-- Mock is the generator of mock.rs of the same folder, and Timeline the times of its events.
--
-- Hooks: the id counters and `AsyncResourceId` of crates/laplace-model-rt/src/hooks.rs. A panic on a
-- counter that is used up is the result `none`.
--
-- TaskSet: crates/laplace-model-rt/src/task_set.rs. Completions are cells of a store, since a task
-- and its handle share one, and wakers are numbers. Polling has the polls of one task, Running what
-- else may go on meanwhile; Joining and Spawning have results on handles and on the limit of a set.
--
-- AsyncLock: async_mutex.rs, async_rwlock.rs and async_semaphore.rs of crates/laplace-model-rt/src.
-- A hook is the list of the calls made on it (Calls). Semaphore, Mutex and RwLock have the futures,
-- the guards and the permits; Lifetimes, MutexLife and RwLives follow one use from its first poll to
-- its end, CreatedOnce the interleaved steps of all users of one semaphore.
--
-- Oneshot: oneshot.rs of the same folder. Endpoints has the two ends and the calls of an
-- `AsyncChannelHook`, Ends and Uses what the hook learns of them in any order of uses.
--
-- Notify: async_notify.rs of the same folder. Waiters has the future of a wait and the notifications,
-- Waits follows one wait while others notify.
--
-- Cell: arc_swap.rs of the same folder, over the interface `ArcSwap` to the third-party cell. Swap has
-- the cell with its versions and the cache, Versions runs any sequence of stores and loads.
--
-- Timer: async_time.rs of the same folder. Each poll of a sleep, a timeout or an interval has a
-- record `Turn` of the answers that it gets (the hook, its clock, the tokio timer); Waiting and
-- Ticking have the results.
--
-- Mpsc: mpsc.rs of crates/laplace-model-rt/src. Bounded and Unbounded have the ends and the futures,
-- Users the steps of all that share one channel. Protocol is a reader of the hook's calls that refuses
-- those out of order; Told relates it to the users, Keeps, Steps and Futures go through the steps,
-- and Orders has the result.
--
-- Tracked: tracked.rs, tracked_std.rs, tracked_rwlock.rs, tracked_std_rwlock.rs and
-- tracked_parking_lot_rwlock.rs of crates/laplace-probe-sdk/src. Locks has the acquisitions and the
-- drops, Threads the interleaved steps of threads that share locks; Counting is an observer of one
-- resource, Observed and Exclusion relate it to the threads, and Captured has the result.
--
-- Projected: async_hooks.rs and task.rs of the same folder, the hooks that make events of the calls on
-- the model primitives. Kinds has the conversions, AsyncHooks and TaskHook the hooks, Polls the polls
-- of tasks while they are installed; Attribution and Sessions relate these to a capture session.
--
-- StdLock: mutex.rs and rwlock.rs of crates/laplace-model-rt/src. Calls has the calls of the model
-- locks, cut where they wait, and the drops of their guards; Guards the interleaved steps of threads
-- that use them; Counts and Balance what the lock hook is told.
--
-- Errors: codes.rs (Codes) and tenant.rs (TenantErrors) of crates/laplace-interfaces/src/error, and what
-- the other end makes of the codes (Arriving).
--
-- Tenant: tier.rs (Tiers) and model.rs (Metadata) of crates/laplace-interfaces/src/domain/tenant, and
-- what a run of upgrades does (Upgrades).
--
-- Context: scheduling.rs (Priority) and context.rs (Request) of crates/laplace-interfaces/src/domain,
-- and what the builders keep (Validity). The clock's answer is an argument.
--
-- Time: domain/time/types.rs of that crate, a scheduled event (Scheduled) and its order (Order).
--
-- Kraken: domain/kraken/types.rs of that crate. Chaos has the events and the queries of a schedule,
-- Active what they agree on, Scenario the steps and their validation, Validated its outcome. `f64` is
-- the interface `Float`.
--
-- Scenarios: tests, and the theorems applied to concrete inputs.
--
-- Every loop of the source that is modelled goes over a list, so that no fuel is needed. Counters of
-- 64 bits keep their bound: `current_thread_id` wraps, the counters of hooks.rs stop, the attempt
-- number of a task and the deadlines stay at the greatest number. The casts of the decoder wrap at
-- 32 bits.
--
-- What third-party code does is an argument: the answers of the tokio primitives that are wrapped,
-- what a poll of a future does, `Waker::will_wake`. The JSON value of a custom event is a type
-- parameter. A channel of the standard library never blocks here and its receiver is never gone. A
-- capture session is modelled from where it holds the capture lock.
--
-- Not modelled: input and output (dump_events, the cloud client, the readers of configuration and
-- license), the procedural macros of crates/laplace-macro, which work on syntax trees of a
-- third-party library, ModelArcSwapOption, the watch, broadcast and
-- spawn seams of laplace-model-rt, `ProbeLockHook`, the ramp-up profiles of Kraken, which compute in floating point,
-- the other data types and traits of laplace-interfaces and laplace-axiom-contract, the vendored
-- crates and the examples.
pub mod Prelude
pub mod Event
pub mod LockOrder
pub mod Session
pub mod TaskSet
pub mod Hooks
pub mod AsyncLock
pub mod Wire
pub mod Timer
pub mod Oneshot
pub mod Notify
pub mod Cell
pub mod Errors
pub mod Tenant
pub mod Context
pub mod Time
pub mod Kraken
pub mod Mpsc
pub mod Tracked
pub mod StdLock
pub mod Projected
pub mod Scenarios
