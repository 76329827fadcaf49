-- ===== src/Mpsc/Futures.antt =====
-- The futures of an mpsc channel keep to the protocol.
use laplace.Prelude.{
  ℕ, ◌<◌, ◌≡◌, inl, inr, refl, Bool, false, ◌&&◌, not, Bool-cases, Option, none, some,
  if◌then◌else◌, arith,
}
use laplace.Oneshot.Endpoints.{
  ChannelCall, op_requested, op_resolved, op_dropped, AsyncChannelOp, AsyncChannelOutcome,
  AsyncChannelKind, Hook, report,
}
use laplace.Mpsc.Users.{Future, Users, put}
use laplace.Mpsc.Protocol.{Phase, waiting, ended, read, channel_of}
use laplace.Mpsc.Told.{phase_of, Stands, Unused, Told, Told-report, Told-quiet, put-first, put-both}

Unused-below : (next op : ℕ) (p : Phase) (f : Option Future) → op < next → Unused next op f p
Unused-below next op p none lt = inl lt
Unused-below next op p (some f) lt = lt

module _ (resource : ℕ) (kind : AsyncChannelKind) (this : Users) (k : Told resource kind this) where
  -- A call about the operation of a future.
  called :
      (op : ℕ) (f' : Option Future) (x : ChannelCall) (p : Phase)
      → op < this.ids.next_async_lock_waiter
      → channel_of x ≡ resource
      → read x k.seen ≡ some (record k.seen { phases = put op p k.seen.phases })
      → Stands resource op f' p
      → Told resource kind
          (record this { futures = put op f' this.futures; hook = report x this.hook })
  called op f' x p lt c accepted stands =
      Told-report resource kind this k x (record k.seen { phases = put op p k.seen.phases })
        (record this { futures = put op f' this.futures; hook = report x this.hook }) c accepted
        refl refl k.senders_right k.receiver_right
        (put-both (Stands resource) op f' p this.futures k.seen.phases stands k.stands)
        (put-both (Unused this.ids.next_async_lock_waiter) op f' p this.futures k.seen.phases
          (Unused-below _ op _ f' lt) k.unused)

  -- Another future under the id of one, and no call.
  pub uncalled :
      (op : ℕ) (f' : Option Future)
      → op < this.ids.next_async_lock_waiter
      → Stands resource op f' (k.seen.phases op)
      → Told resource kind (record this { futures = put op f' this.futures })
  uncalled op f' lt stands =
      Told-quiet resource kind this k (record this { futures = put op f' this.futures }) refl refl
        refl refl
        (put-first (Stands resource) op f' ended this.futures k.seen.phases stands k.stands)
        (put-first (Unused this.ids.next_async_lock_waiter) op f' ended this.futures k.seen.phases
          (Unused-below _ op _ f' lt) k.unused)

  -- What a future of this channel, its id and its phase let it tell.
  module _ (r op : ℕ) (requested_emitted resolved : Bool) (what : AsyncChannelOp)
      (lt : op < this.ids.next_async_lock_waiter) (of_channel : r ≡ resource)
      (stands : k.seen.phases op ≡ phase_of requested_emitted resolved) where
    pub asked :
        (f' : Option Future)
        → requested_emitted ≡ false
        → resolved ≡ false
        → Stands resource op f' waiting
        → Told resource kind (record this {
          futures = put op f' this.futures;
          hook = report (op_requested r op what) this.hook;
        })
    asked f' new running s =
        called op f' (op_requested r op what) waiting lt of_channel
          (unfold read in rw (stands, new, running) refl) s

    pub answered :
        (f' : Option Future) (outcome : AsyncChannelOutcome)
        → resolved ≡ false
        → Stands resource op f' ended
        → Told resource kind (record this {
          futures = put op f' this.futures;
          hook = report (op_resolved r op what outcome) this.hook;
        })
    answered f' outcome running s =
        called op f' (op_resolved r op what outcome) ended lt of_channel
          (unfold read in ground (arith, stands, running)) s

    pub dropped :
        (hook : Hook)
        → hook ≡ (
            if requested_emitted && not resolved
            then report (op_dropped r op) this.hook
            else this.hook)
        → Told resource kind (record this { futures = put op none this.futures; hook = hook })
    dropped hook told = elim (Bool-cases (requested_emitted && not resolved)) [
      | inl waits ↦
          rw (told, waits)
            (called op none (op_dropped r op) ended lt of_channel
              (unfold read in ground (arith, stands, waits)) (inr refl))
      | inr quiet ↦ rw (told, quiet) (uncalled op none lt (ground (arith, stands, quiet)))
    ]
