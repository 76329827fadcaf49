-- ===== src/Mpsc/Orders.antt =====
-- A reader of the hook follows the users of an mpsc channel.
use laplace.Prelude.{
  ℕ, ◌<◌, ◌≡◌, inl, inr, refl, subst, Bool, true, false, Option, none, some, List, [], ◌∷◌,
  if◌then◌else◌,
}
use laplace.Hooks.Counters.{Ids}
use laplace.Oneshot.Endpoints.{
  mpsc_bounded, mpsc_unbounded, ok, closed, send, recv, AsyncChannelKind, Hook, Received, pending,
  ready,
}
use laplace.Mpsc.Bounded.{
  ModelMpscSend, ModelMpscRecv, poll_mpsc_send, poll_mpsc_recv, drop_mpsc_send, drop_mpsc_recv,
}
use laplace.Mpsc.Users.{
  Future, sending, receiving, Users, opened, Step, clones, drops_sender, sends, tries_send,
  receives, tries_recv, closes, drops_receiver, polls, drops_future, put, take_step, take_all,
  poll_future, drop_future,
}
use laplace.Mpsc.Protocol.{start, read_all}
use laplace.Mpsc.Told.{phase_of, Stands, Unused, Told}
use laplace.Mpsc.Keeps.{clones_lem, drops_sender_lem, closes_lem, drops_receiver_lem}
use laplace.Mpsc.Steps.{sends_lem, tries_send_lem, receives_lem, tries_recv_lem}
use laplace.Mpsc.Futures.{uncalled, asked, answered, dropped}

abbrev made_sending : (r op : ℕ) (requested_emitted resolved : Bool) → ModelMpscSend
made_sending r op requested resolved = record {
  resource = r;
  op = op;
  requested_emitted = requested;
  resolved = resolved;
}

abbrev made_receiving : (r op : ℕ) (requested_emitted resolved : Bool) → ModelMpscRecv
made_receiving r op requested resolved = record {
  resource = r;
  op = op;
  requested_emitted = requested;
  resolved = resolved;
}

module _ (resource : ℕ) (kind : AsyncChannelKind) (this : Users) (k : Told resource kind this) where
  -- The users after a poll of a future.
  abbrev after : ℕ → Future × Hook → Users
  after op (f, hook) = record this { futures = put op (some f) this.futures; hook = hook }

  polled_sending :
      (r op : ℕ) (requested_emitted resolved : Bool) (answer : Received)
      → op < this.ids.next_async_lock_waiter
      → r ≡ resource
      → k.seen.phases op ≡ phase_of requested_emitted resolved
      → Told resource kind (
          after op
            (poll_future answer (sending (made_sending r op requested_emitted resolved)) this.hook))
  unfolding poll_future poll_mpsc_send
  polled_sending r op requested true answer lt c p =
      uncalled resource kind this k op _ lt (c, refl, p)
  polled_sending r op requested false (ready is_ok) lt c p =
      answered resource kind this k r op requested false send lt c p _
        (if is_ok then ok else closed) refl (c, refl, refl)
  polled_sending r op true false pending lt c p = uncalled resource kind this k op _ lt (c, refl, p)
  polled_sending r op false false pending lt c p =
      asked resource kind this k r op false false send lt c p _ refl refl (c, refl, refl)

  polled_receiving :
      (r op : ℕ) (requested_emitted resolved : Bool) (answer : Received)
      → op < this.ids.next_async_lock_waiter
      → r ≡ resource
      → k.seen.phases op ≡ phase_of requested_emitted resolved
      → Told resource kind (
          after op (
            poll_future answer
              (receiving (made_receiving r op requested_emitted resolved))
              this.hook))
  unfolding poll_future poll_mpsc_recv
  polled_receiving r op requested true answer lt c p =
      uncalled resource kind this k op _ lt (c, refl, p)
  polled_receiving r op requested false (ready is_ok) lt c p =
      answered resource kind this k r op requested false recv lt c p _
        (if is_ok then ok else closed) refl (c, refl, refl)
  polled_receiving r op true false pending lt c p =
      uncalled resource kind this k op _ lt (c, refl, p)
  polled_receiving r op false false pending lt c p =
      asked resource kind this k r op false false recv lt c p _ refl refl (c, refl, refl)

  polls_lem : (op : ℕ) (answer : Received) → Told resource kind (take_step (polls op answer) this)
  unfolding take_step
  polls_lem op answer = go (this.futures op) (k.stands op) (k.unused op)
    where
      go :
          (f : Option Future)
          → Stands resource op f (k.seen.phases op)
          → Unused this.ids.next_async_lock_waiter op f (k.seen.phases op)
          → Told resource kind
              (elim f [ none ↦ this | some f ↦ after op (poll_future answer f this.hook) ])
      go none s u = k
      go (some (sending f)) (c, same, p) lt =
          subst (λ o. Told resource kind (after o (poll_future answer (sending f) this.hook))) same
            (polled_sending f.resource f.op f.requested_emitted f.resolved answer (rw same lt) c
              (rw same p))
      go (some (receiving f)) (c, same, p) lt =
          subst (λ o. Told resource kind (after o (poll_future answer (receiving f) this.hook)))
            same
            (polled_receiving f.resource f.op f.requested_emitted f.resolved answer (rw same lt) c
              (rw same p))

  drops_future_lem : (op : ℕ) → Told resource kind (take_step (drops_future op) this)
  unfolding take_step drop_future drop_mpsc_send drop_mpsc_recv
  drops_future_lem op = go (this.futures op) (k.stands op) (k.unused op)
    where
      go :
          (f : Option Future)
          → Stands resource op f (k.seen.phases op)
          → Unused this.ids.next_async_lock_waiter op f (k.seen.phases op)
          → Told resource kind (elim f [
            | none ↦ this
            | some f ↦ record this {
              futures = put op none this.futures;
              hook = drop_future f this.hook;
            }
          ])
      go none s u = k
      go (some (sending f)) (c, same, p) lt =
          dropped resource kind this k f.resource op f.requested_emitted f.resolved send lt c p _
            (rw same refl)
      go (some (receiving f)) (c, same, p) lt =
          dropped resource kind this k f.resource op f.requested_emitted f.resolved recv lt c p _
            (rw same refl)

take_step-Told :
    (resource : ℕ) (kind : AsyncChannelKind) (s : Step) (this : Users)
    → Told resource kind this
    → Told resource kind (take_step s this)
take_step-Told resource kind clones this k = clones_lem resource kind this k
take_step-Told resource kind drops_sender this k = drops_sender_lem resource kind this k
take_step-Told resource kind (sends accepted) this k = sends_lem resource kind this k accepted
take_step-Told resource kind (tries_send result) this k = tries_send_lem resource kind this k result
take_step-Told resource kind receives this k = receives_lem resource kind this k
take_step-Told resource kind (tries_recv result) this k = tries_recv_lem resource kind this k result
take_step-Told resource kind closes this k = closes_lem resource kind this k
take_step-Told resource kind drops_receiver this k = drops_receiver_lem resource kind this k
take_step-Told resource kind (polls op answer) this k = polls_lem resource kind this k op answer
take_step-Told resource kind (drops_future op) this k = drops_future_lem resource kind this k op

take_all-Told :
    (resource : ℕ) (kind : AsyncChannelKind) (ss : List Step) (this : Users)
    → Told resource kind this
    → Told resource kind (take_all ss this)
unfolding take_all
take_all-Told resource kind [] this k = k
take_all-Told resource kind (s ∷ ss) this k =
    take_all-Told resource kind ss (take_step s this) (take_step-Told resource kind s this k)

abbrev pub kind_of : (capacity : Option ℕ) → AsyncChannelKind
kind_of none = mpsc_unbounded
kind_of (some buffer) = mpsc_bounded buffer

opened-Told :
    (capacity : Option ℕ) (resource : ℕ) (ids : Ids)
    → Told resource (kind_of capacity) (opened capacity resource ids)
unfolding opened read_all
opened-Told none resource ids = record {
  log = [];
  seen = start;
  hooked = refl;
  in_order = refl;
  one_channel = tt;
  of_resource = (refl, refl);
  senders_right = refl;
  receiver_right = refl;
  stands = λ op. inl refl;
  unused = λ op. inr refl;
}
opened-Told (some buffer) resource ids = record {
  log = [];
  seen = start;
  hooked = refl;
  in_order = refl;
  one_channel = tt;
  of_resource = (refl, refl);
  senders_right = refl;
  receiver_right = refl;
  stands = λ op. inl refl;
  unused = λ op. inr refl;
}

-- Whatever the users of a channel, bounded or not, do in whatever order, and whatever the tokio
-- channel answers, the hook is told of the channel's creation first and then of calls about this
-- channel that are in order: no end is cloned, dropped or closed that is gone, no operation is asked
-- for twice, ends twice, is asked for after its end, or is dropped when it does not wait. A reader of
-- the calls knows how many senders there are, whether there is a receiver, and of each future
-- whether it was asked for and whether it has ended.
pub mpsc-Told :
    (capacity : Option ℕ) (resource : ℕ) (ids : Ids) (ss : List Step)
    → Told resource (kind_of capacity) (take_all ss (opened capacity resource ids))
mpsc-Told capacity resource ids ss =
    take_all-Told resource (kind_of capacity) ss (opened capacity resource ids)
      (opened-Told capacity resource ids)
