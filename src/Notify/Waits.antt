-- ===== src/Notify/Waits.antt =====
-- What a hook is told of a wait while others notify.
use laplace.Prelude.{ℕ, ◌≡◌, refl, Bool, true, false, Option, none, some, List, [], ◌∷◌}
use laplace.Notify.Waiters.{
  NotifyCall, wait_requested, wait_resolved, waiter_dropped, notified_one, notified_waiters,
  NotifyHook, notify_hook, ModelNotified, notified, notify_one, notify_waiters, poll_notified,
  drop_notified,
}

-- What happens while a future waits: it is polled, or someone notifies.
pub data Happening : Type 0 where
  polled : (is_ready : Bool) → Happening
  one all : Happening

-- A future is polled until it is ready, or to the end of the list, and dropped; the resource is
-- notified meanwhile and afterwards. The future is `none` once it is dropped.
unfoldable pub wait_life : ℕ → List Happening → Option ModelNotified → NotifyHook → NotifyHook
unfolding poll_notified drop_notified notify_one notify_waiters
wait_life resource [] none hook = hook
wait_life resource [] (some this) hook = drop_notified this hook
wait_life resource (one ∷ hs) this hook = wait_life resource hs this (notify_one resource hook)
wait_life resource (all ∷ hs) this hook = wait_life resource hs this (notify_waiters resource hook)
wait_life resource (polled is_ready ∷ hs) none hook = wait_life resource hs none hook
wait_life resource (polled false ∷ hs) (some this) hook =
    let (this', hook') = poll_notified false this hook in wait_life resource hs (some this') hook'
wait_life resource (polled true ∷ hs) (some this) hook =
    let (this', hook') = poll_notified true this hook in
    wait_life resource hs none (drop_notified this' hook')

-- A wait is not asked for yet, is asked for, or is over.
pub data Phase : Type 0 where
  fresh asked over : Phase

-- The calls that follow from each phase on.
abbrev pub wait_calls : (resource waiter : ℕ) → Phase → List Happening → List NotifyCall
wait_calls resource waiter fresh [] = []
wait_calls resource waiter asked [] = waiter_dropped resource waiter ∷ []
wait_calls resource waiter over [] = []
wait_calls resource waiter phase (one ∷ hs) =
    notified_one resource ∷ wait_calls resource waiter phase hs
wait_calls resource waiter phase (all ∷ hs) =
    notified_waiters resource ∷ wait_calls resource waiter phase hs
wait_calls resource waiter over (polled is_ready ∷ hs) = wait_calls resource waiter over hs
wait_calls resource waiter fresh (polled false ∷ hs) =
    wait_requested resource waiter ∷ wait_calls resource waiter asked hs
wait_calls resource waiter asked (polled false ∷ hs) = wait_calls resource waiter asked hs
wait_calls resource waiter fresh (polled true ∷ hs) =
    wait_resolved resource waiter ∷ wait_calls resource waiter over hs
wait_calls resource waiter asked (polled true ∷ hs) =
    wait_resolved resource waiter ∷ wait_calls resource waiter over hs

-- A hook that is told some calls, the first one first.
abbrev pub notify_told : List NotifyCall → NotifyHook → NotifyHook
notify_told [] hook = hook
notify_told (c ∷ cs) hook = notify_told cs (notify_hook c hook)

abbrev future_in : (resource waiter : ℕ) → Phase → Option ModelNotified
future_in resource waiter fresh = some (notified resource waiter)
future_in resource waiter asked =
    some (record (notified resource waiter) { requested_emitted = true })
future_in resource waiter over = none

phase-wait_life :
    (hs : List Happening) (resource waiter : ℕ) (phase : Phase) (hook : NotifyHook)
    → wait_life resource hs (future_in resource waiter phase) hook
      ≡ notify_told (wait_calls resource waiter phase hs) hook
unfolding wait_life notified
phase-wait_life [] resource waiter fresh hook = refl
phase-wait_life [] resource waiter asked hook = refl
phase-wait_life [] resource waiter over hook = refl
phase-wait_life (one ∷ hs) resource waiter phase hook =
    phase-wait_life hs resource waiter phase (notify_one resource hook)
phase-wait_life (all ∷ hs) resource waiter phase hook =
    phase-wait_life hs resource waiter phase (notify_waiters resource hook)
phase-wait_life (polled is_ready ∷ hs) resource waiter over hook =
    phase-wait_life hs resource waiter over hook
phase-wait_life (polled false ∷ hs) resource waiter fresh hook =
    phase-wait_life hs resource waiter asked _
phase-wait_life (polled false ∷ hs) resource waiter asked hook =
    phase-wait_life hs resource waiter asked hook
phase-wait_life (polled true ∷ hs) resource waiter fresh hook =
    phase-wait_life hs resource waiter over _
phase-wait_life (polled true ∷ hs) resource waiter asked hook =
    phase-wait_life hs resource waiter over _

-- One wait for a notification follows three phases, whatever notifications come between its polls:
-- its first poll tells the hook of a request if it is not ready and of the end of the wait if it is;
-- after a request only the first ready poll tells of the end of the wait, or the drop of the future
-- tells that the waiter was dropped; after the end nothing more is told of it. Each notification is
-- told when it comes.
pub wait_life-told :
    (resource waiter : ℕ) (hs : List Happening) (hook : NotifyHook)
    → wait_life resource hs (some (notified resource waiter)) hook
      ≡ notify_told (wait_calls resource waiter fresh hs) hook
wait_life-told resource waiter hs hook = phase-wait_life hs resource waiter fresh hook
