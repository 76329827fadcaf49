-- ===== src/Oneshot/Uses.antt =====
-- Every use of an end keeps what the hook was told right.
use laplace.Prelude.{
  ℕ, ◌≡◌, inl, inr, refl, Bool, true, false, ◌&&◌, not, Bool-cases, Option, none, some, List, [],
  ◌∷◌, if◌then◌else◌, arith,
}
use laplace.Oneshot.Endpoints.{
  ChannelCall, op_requested, op_resolved, op_dropped, endpoint_dropped, channel_closed,
  channel_created, oneshot, send, recv, ok, closed, sender, receiver, Hook, report, Sender,
  Receiver, outcome_of, Received, pending, ready,
}
use laplace.Oneshot.Ends.{
  Channel, made, Use, sends, drops_sender, polls, tries, closes, drops_receiver, use_end, use_all,
  count, ends_sender, ends_receiver, requests, EndsTold, at, Goes, EndsTold-report,
  EndsTold-neither, WaitTold-more,
}

sender-Goes :
    (op : ℕ) (accepted : Bool) (o : ℕ) (tx : Sender) (rx : Option Receiver) (hook : Hook)
    → EndsTold op (at (some tx) rx hook)
    → Goes op (sends accepted o) (at (some tx) rx hook)
      × Goes op drops_sender (at (some tx) rx hook)
unfolding use_end
sender-Goes op accepted o tx rx hook k = (
  (at none rx (report sent hook), ground (arith, k.ready_sender), ends sent refl refl refl),
  (at none rx (report dropped hook), ground (arith, k.ready_sender), ends dropped refl refl refl),
)
  where
    sent : ChannelCall
    sent = op_resolved tx.resource o send (if accepted then ok else closed)

    dropped : ChannelCall
    dropped = endpoint_dropped tx.resource sender

    ends :
        (x : ChannelCall)
        → count ends_sender (x ∷ []) ≡ 1
        → count ends_receiver (x ∷ []) ≡ 0
        → count requests (x ∷ []) ≡ 0
        → EndsTold op (at none rx (report x hook))
    ends x s r q =
        EndsTold-report op (at (some tx) rx hook) none rx x k tt (omega (arith, s))
          (omega (arith, r)) (rw q (WaitTold-more op rx _ _ _ k.wait))

-- The drop of a receiver that does not wait.
EndsTold-dropped :
    (op : ℕ) (tx : Option Sender) (rx : Receiver) (hook : Hook)
    → (rx.requested_emitted && not rx.resolved) ≡ false
    → EndsTold op (at tx (some rx) hook)
    → EndsTold op (at tx none (report (endpoint_dropped rx.resource receiver) hook))
EndsTold-dropped op tx rx hook quiet k =
    EndsTold-report op (at tx (some rx) hook) tx none (endpoint_dropped rx.resource receiver) k
      k.ready_sender (omega arith) (omega arith) (ground (arith, k.wait))

drops_receiver-Goes :
    (op : ℕ) (tx : Option Sender) (rx : Receiver) (hook : Hook)
    → EndsTold op (at tx (some rx) hook)
    → Goes op drops_receiver (at tx (some rx) hook)
unfolding use_end
drops_receiver-Goes op tx rx hook k = elim (Bool-cases (rx.requested_emitted && not rx.resolved)) [
  | inl waits ↦ (
    at tx none (report (endpoint_dropped rx.resource receiver) (report over hook)),
    rw waits refl,
    EndsTold-dropped op tx done (report over hook) (ground arith) (
        EndsTold-report op (at tx (some rx) hook) tx (some done) over k k.ready_sender (omega arith)
          (omega arith) (ground (arith, k.wait))),
  )
  | inr quiet ↦ (
    at tx none (report (endpoint_dropped rx.resource receiver) hook),
    rw quiet refl,
    EndsTold-dropped op tx rx hook quiet k,
  )
]
  where
    over : ChannelCall
    over = op_dropped rx.resource rx.op

    done : Receiver
    done = record rx { resolved = true }

polls-Goes :
    (op : ℕ) (result : Received) (tx : Option Sender) (rx : Receiver) (hook : Hook)
    → EndsTold op (at tx (some rx) hook)
    → Goes op (polls result) (at tx (some rx) hook)
unfolding use_end
polls-Goes op (ready is_ok) tx rx hook k = (
  at tx (some (record rx { resolved = true })) (report answer hook),
  refl,
  EndsTold-report op (at tx (some rx) hook) tx (some (record rx { resolved = true })) answer k
      k.ready_sender (omega arith) (omega arith) (ground (arith, k.wait)),
)
  where
    answer : ChannelCall
    answer = op_resolved rx.resource rx.op recv (if is_ok then ok else closed)
polls-Goes op pending tx rx hook k = elim (Bool-cases rx.requested_emitted) [
  | inl old ↦ (at tx (some rx) hook, rw old refl, k)
  | inr new ↦ (
    at tx (some (record rx { requested_emitted = true }))
        (report (op_requested rx.resource rx.op recv) hook),
    rw new refl,
    EndsTold-report op (at tx (some rx) hook) tx (some (record rx { requested_emitted = true }))
        (op_requested rx.resource rx.op recv) k k.ready_sender (omega arith) (omega arith)
        (ground (arith, k.wait)),
  )
]

use_end-Goes :
    (op : ℕ) (u : Use) (tx : Option Sender) (rx : Option Receiver) (hook : Hook)
    → EndsTold op (at tx rx hook)
    → Goes op u (at tx rx hook)
unfolding use_end
use_end-Goes op (sends accepted o) none rx hook k = (at none rx hook, refl, k)
use_end-Goes op (sends accepted o) (some tx) rx hook k = (sender-Goes op accepted o tx rx hook k).0
use_end-Goes op drops_sender none rx hook k = (at none rx hook, refl, k)
use_end-Goes op drops_sender (some tx) rx hook k = (sender-Goes op true 0 tx rx hook k).1
use_end-Goes op (polls result) tx none hook k = (at tx none hook, refl, k)
use_end-Goes op (polls result) tx (some rx) hook k = polls-Goes op result tx rx hook k
use_end-Goes op (tries result o) tx none hook k = (at tx none hook, refl, k)
use_end-Goes op (tries result o) tx (some rx) hook k = (
  at tx (some rx) (report (op_resolved rx.resource o recv (outcome_of result)) hook),
  refl,
  EndsTold-neither op tx (some rx) hook k _ refl refl refl,
)
use_end-Goes op closes tx none hook k = (at tx none hook, refl, k)
use_end-Goes op closes tx (some rx) hook k = (
  at tx (some rx) (report (channel_closed rx.resource) hook),
  refl,
  EndsTold-neither op tx (some rx) hook k _ refl refl refl,
)
use_end-Goes op drops_receiver tx none hook k = (at tx none hook, refl, k)
use_end-Goes op drops_receiver tx (some rx) hook k = drops_receiver-Goes op tx rx hook k

use_all-Goes :
    (op : ℕ) (us : List Use) (c : Channel)
    → EndsTold op c
    → (c' : Channel) × (use_all us c ≡ some c') × EndsTold op c'
unfolding use_all
use_all-Goes op [] c k = (c, refl, k)
use_all-Goes op (u ∷ us) c k =
    let (d, went, told) = use_end-Goes op u c.tx c.rx c.hook k in
    let (e, rest, told') = use_all-Goes op us d told in (e, rw (went, use_all) rest, told')

made-EndsTold : (resource op : ℕ) → EndsTold op (made resource op)
unfolding made
made-EndsTold resource op = record {
  log = channel_created resource oneshot ∷ [];
  hooked = refl;
  ready_sender = refl;
  sender_once = refl;
  receiver_once = refl;
  wait = (refl, refl, inl refl);
}

-- However the ends of a oneshot channel are used, as long as there are operation ids left and the
-- tokio ends answer each use (they panic where a receiver is polled after it gave a result), no use
-- fails for want of the sender's inner half, and the hook is told of the end of the sender (a send
-- or a drop) exactly once if it is used up and else not, of the drop of the receiver likewise, of a
-- request to receive at most once, and of an answer to that request (a result, or that the wait was
-- dropped) by the time that the receiver is gone.
pub use_all-EndsTold :
    (resource op : ℕ) (us : List Use)
    → (c : Channel) × (use_all us (made resource op) ≡ some c) × EndsTold op c
use_all-EndsTold resource op us = use_all-Goes op us (made resource op) (made-EndsTold resource op)
