-- ===== src/Mpsc/Users.antt =====
-- The users of one mpsc channel: what they hold of it, and what they can do in any order.
use laplace.Prelude.{
  ℕ, suc, ◌-◌, Bool, true, false, ◌==◌, ltb, Option, none, some, List, [], ◌∷◌, if◌then◌else◌,
}
use laplace.Hooks.Counters.{Ids, next_async_lock_waiter_id}
use laplace.Oneshot.Endpoints.{Hook, Received, Tried}
use laplace.Mpsc.Bounded.{
  MpscSender, MpscReceiver, mpsc_channel, clone_sender, drop_mpsc_sender, ModelMpscSend, mpsc_send,
  TrySent, try_send, poll_mpsc_send, drop_mpsc_send, drop_mpsc_receiver, ModelMpscRecv, mpsc_recv,
  mpsc_try_recv, mpsc_close, poll_mpsc_recv, drop_mpsc_recv,
}
use laplace.Mpsc.Unbounded.{
  UnboundedSender, UnboundedReceiver, unbounded_channel, clone_unbounded_sender,
  drop_unbounded_sender, unbounded_send, drop_unbounded_receiver, unbounded_recv,
  unbounded_try_recv, unbounded_close,
}

-- The two ends, which all handles of one kind are alike.
pub data Ends : Type 0 where
  bounded : MpscSender → MpscReceiver → Ends
  unbounded : UnboundedSender → UnboundedReceiver → Ends

pub data Future : Type 0 where
  sending : ModelMpscSend → Future
  receiving : ModelMpscRecv → Future

-- How many senders there are, whether there is a receiver, the futures that are not dropped by
-- their ids, the counters and the hook.
pub record Users : Type 0 where
  pub ends : Ends
  pub senders : ℕ
  pub has_receiver : Bool
  pub futures : ℕ → Option Future
  pub ids : Ids
  pub hook : Hook

-- `channel` with a capacity, else `unbounded_channel`.
unfoldable pub opened : (capacity : Option ℕ) (resource : ℕ) → Ids → Users
unfolding mpsc_channel unbounded_channel
opened (some buffer) resource ids =
    let ((tx, rx), hook) = mpsc_channel buffer resource (some []) in
    record {
      ends = bounded tx rx;
      senders = 1;
      has_receiver = true;
      futures = λ op. none;
      ids = ids;
      hook = hook;
    }
opened none resource ids =
    let ((tx, rx), hook) = unbounded_channel resource (some []) in
    record {
      ends = unbounded tx rx;
      senders = 1;
      has_receiver = true;
      futures = λ op. none;
      ids = ids;
      hook = hook;
    }

-- A send of an unbounded channel ends at once, with `accepted`; that of a bounded one is a future.
pub data Step : Type 0 where
  clones drops_sender : Step
  sends : (accepted : Bool) → Step
  tries_send : TrySent → Step
  receives : Step
  tries_recv : Tried → Step
  closes drops_receiver : Step
  polls : (op : ℕ) → Received → Step
  drops_future : (op : ℕ) → Step

abbrev pub put {ℓ} : {A : Type ℓ} → ℕ → A → (ℕ → A) → ℕ → A
put op a f = λ o. if o == op then a else f o

-- With a new id; a call that panics because there is none changes nothing here.
abbrev pub with_id : (ℕ → Users → Users) → Users → Users
with_id f this = elim (next_async_lock_waiter_id this.ids) [
  | none ↦ this
  | some (op, ids) ↦ f op (record this { ids = ids })
]

unfoldable pub clone_end : Ends → Hook → Hook
unfolding clone_sender clone_unbounded_sender
clone_end (bounded tx rx) hook = (clone_sender tx hook).1
clone_end (unbounded tx rx) hook = (clone_unbounded_sender tx hook).1

unfoldable pub drop_sender_end : Ends → Hook → Hook
unfolding drop_mpsc_sender drop_unbounded_sender
drop_sender_end (bounded tx rx) hook = drop_mpsc_sender tx hook
drop_sender_end (unbounded tx rx) hook = drop_unbounded_sender tx hook

unfoldable pub drop_receiver_end : Ends → Hook → Hook
unfolding drop_mpsc_receiver drop_unbounded_receiver
drop_receiver_end (bounded tx rx) hook = drop_mpsc_receiver rx hook
drop_receiver_end (unbounded tx rx) hook = drop_unbounded_receiver rx hook

unfoldable pub close_end : Ends → Hook → Hook
unfolding mpsc_close unbounded_close
close_end (bounded tx rx) hook = mpsc_close rx hook
close_end (unbounded tx rx) hook = unbounded_close rx hook

unfoldable pub try_recv_end : Tried → ℕ → Ends → Hook → Hook
unfolding mpsc_try_recv unbounded_try_recv
try_recv_end result op (bounded tx rx) hook = mpsc_try_recv result op rx hook
try_recv_end result op (unbounded tx rx) hook = unbounded_try_recv result op rx hook

unfoldable pub recv_end : ℕ → Ends → ModelMpscRecv
unfolding mpsc_recv unbounded_recv
recv_end op (bounded tx rx) = mpsc_recv op rx
recv_end op (unbounded tx rx) = unbounded_recv op rx

unfoldable pub send_end : (accepted : Bool) (op : ℕ) → Ends → Users → Users
unfolding mpsc_send unbounded_send
send_end accepted op (bounded tx rx) this = record this {
  futures = put op (some (sending (mpsc_send op tx))) this.futures;
}
send_end accepted op (unbounded tx rx) this = record this {
  hook = unbounded_send accepted op tx this.hook;
}

-- There is no `try_send` on an unbounded channel.
unfoldable pub try_send_end : TrySent → ℕ → Ends → Users → Users
unfolding try_send
try_send_end result op (bounded tx rx) this = record this { hook = try_send result op tx this.hook }
try_send_end result op (unbounded tx rx) this = this

-- A future that has ended is not polled again.
unfoldable pub poll_future : Received → Future → Hook → Future × Hook
unfolding poll_mpsc_send poll_mpsc_recv
poll_future answer (sending f) hook =
    if f.resolved
    then (sending f, hook)
    else (let (f', hook') = poll_mpsc_send answer f hook in (sending f', hook'))
poll_future answer (receiving f) hook =
    if f.resolved
    then (receiving f, hook)
    else (let (f', hook') = poll_mpsc_recv answer f hook in (receiving f', hook'))

unfoldable pub drop_future : Future → Hook → Hook
unfolding drop_mpsc_send drop_mpsc_recv
drop_future (sending f) hook = drop_mpsc_send f hook
drop_future (receiving f) hook = drop_mpsc_recv f hook

-- A step that needs an end or a future that is gone changes nothing.
unfoldable pub take_step : Step → Users → Users
unfolding clone_end drop_sender_end drop_receiver_end close_end try_recv_end recv_end send_end
    try_send_end poll_future drop_future
take_step clones this =
    if ltb 0 this.senders
    then record this { senders = suc this.senders; hook = clone_end this.ends this.hook }
    else this
take_step drops_sender this =
    if ltb 0 this.senders
    then record this { senders = this.senders - 1; hook = drop_sender_end this.ends this.hook }
    else this
take_step (sends accepted) this =
    if ltb 0 this.senders then with_id (λ op. send_end accepted op this.ends) this else this
take_step (tries_send result) this =
    if ltb 0 this.senders then with_id (λ op. try_send_end result op this.ends) this else this
take_step receives this =
    if this.has_receiver
    then with_id
        (λ op this'. record this' {
          futures = put op (some (receiving (recv_end op this.ends))) this'.futures;
        })
        this
    else this
take_step (tries_recv result) this =
    if this.has_receiver
    then with_id (λ op this'. record this' { hook = try_recv_end result op this.ends this'.hook })
        this
    else this
take_step closes this =
    if this.has_receiver then record this { hook = close_end this.ends this.hook } else this
take_step drops_receiver this =
    if this.has_receiver
    then record this { has_receiver = false; hook = drop_receiver_end this.ends this.hook }
    else this
take_step (polls op answer) this = elim (this.futures op) [
  | none ↦ this
  | some f ↦
      let (f', hook) = poll_future answer f this.hook in
      record this { futures = put op (some f') this.futures; hook = hook }
]
take_step (drops_future op) this = elim (this.futures op) [
  | none ↦ this
  | some f ↦ record this { futures = put op none this.futures; hook = drop_future f this.hook }
]

unfoldable pub take_all : List Step → Users → Users
unfolding take_step
take_all [] this = this
take_all (s ∷ ss) this = take_all ss (take_step s this)
