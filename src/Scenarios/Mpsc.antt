-- ===== src/Scenarios/Mpsc.antt =====
-- An mpsc channel with a second sender, a send that waits and is dropped, and a send that is refused.
use laplace.Prelude.{◌≡◌, refl, true, some, List, [], ◌∷◌}
use laplace.Hooks.Counters.{initial_ids, next_async_lock_waiter_id}
use laplace.Oneshot.Endpoints.{
  channel_created, op_requested, op_resolved, op_dropped, endpoint_cloned, endpoint_dropped,
  channel_closed, mpsc_bounded, send, recv, ok, full, sender, receiver, pending, ready,
}
use laplace.Mpsc.Bounded.{no_room}
use laplace.Mpsc.Users.{
  opened, Step, clones, drops_sender, sends, tries_send, receives, closes, drops_receiver, polls,
  drops_future, take_all,
}
use laplace.Mpsc.Told.{Told}
use laplace.Mpsc.Orders.{mpsc-Told, kind_of}

abbrev steps : List Step
steps =
    clones
    ∷ sends true
    ∷ polls 1 pending
    ∷ polls 1 pending
    ∷ tries_send no_room
    ∷ drops_future 1
    ∷ receives
    ∷ polls 3 (ready true)
    ∷ drops_future 3
    ∷ closes
    ∷ drops_sender
    ∷ drops_receiver
    ∷ []

steps_told :
    (take_all steps (opened (some 1) 7 initial_ids)).hook
    ≡ some (
        channel_created 7 (mpsc_bounded 1)
        ∷ endpoint_cloned 7 sender
        ∷ op_requested 7 1 send
        ∷ op_resolved 7 2 send full
        ∷ op_dropped 7 1
        ∷ op_resolved 7 3 recv ok
        ∷ channel_closed 7
        ∷ endpoint_dropped 7 sender
        ∷ endpoint_dropped 7 receiver
        ∷ [])
unfolding take_all opened next_async_lock_waiter_id
steps_told = refl

mpsc-Told_example : Told 7 (kind_of (some 1)) (take_all steps (opened (some 1) 7 initial_ids))
mpsc-Told_example = mpsc-Told (some 1) 7 initial_ids steps
