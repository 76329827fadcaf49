-- ===== src/Mpsc/Steps.antt =====
-- Calls and polls of the users of an mpsc channel keep to the protocol.
use laplace.Prelude.{ℕ, ◌+◌, ◌≡◌, refl, Bool, ltb, some, if◌then◌else◌, arith}
use laplace.Hooks.Counters.{Ids}
use laplace.Oneshot.Endpoints.{
  op_resolved, AsyncChannelOp, AsyncChannelOutcome, ok, closed, send, recv, AsyncChannelKind, Hook,
  report, Tried,
}
use laplace.Mpsc.Bounded.{TrySent, try_sent_outcome, try_recv_outcome}
use laplace.Mpsc.Users.{
  Ends, bounded, unbounded, receiving, Users, sends, tries_send, receives, tries_recv, put,
  take_step, try_recv_end, recv_end, send_end, try_send_end,
}
use laplace.Mpsc.Protocol.{unknown, read}
use laplace.Mpsc.Told.{Stands, OfResource, Told, Told-quiet, fresh_lem, Unused-later}
use laplace.Mpsc.Keeps.{guarded, with_id_lem, try_recv_end_lem, new_call, new_future}

module _ (resource : ℕ) (kind : AsyncChannelKind) (this : Users) (k : Told resource kind this) where
  resolves :
      (kind_of_op : AsyncChannelOp) (outcome : AsyncChannelOutcome) (ids : Ids) (hook : Hook)
      → let op = this.ids.next_async_lock_waiter in
        ids.next_async_lock_waiter ≡ op + 1
        → hook ≡ report (op_resolved resource op kind_of_op outcome) this.hook
        → Told resource kind (record this { ids = ids; hook = hook })
  resolves kind_of_op outcome ids hook n told =
      let (_, not_known) = fresh_lem resource kind this k in
      new_call resource kind this k
        (op_resolved resource this.ids.next_async_lock_waiter kind_of_op outcome) ids hook n refl
        (unfold read in rw not_known refl) told

  pub sends_lem : (accepted : Bool) → Told resource kind (take_step (sends accepted) this)
  unfolding take_step send_end
  sends_lem accepted =
      guarded (Told resource kind) (ltb 0 this.senders)
        (λ y.
          with_id_lem (Told resource kind) (λ op. send_end accepted op this.ends) this k
            (λ ids n. go ids n this.ends k.of_resource))
        k
    where
      go :
          (ids : Ids)
          → ids.next_async_lock_waiter ≡ this.ids.next_async_lock_waiter + 1
          → (e : Ends) → OfResource resource e
          → Told resource kind
              (send_end accepted this.ids.next_async_lock_waiter e (record this { ids = ids }))
      go ids n (bounded tx rx) (t, _) = new_future resource kind this k _ ids n (t, refl, refl)
      go ids n (unbounded tx rx) (t, _) =
          resolves send (if accepted then ok else closed) ids _ n (rw t refl)

  pub tries_send_lem : (result : TrySent) → Told resource kind (take_step (tries_send result) this)
  unfolding take_step try_send_end
  tries_send_lem result =
      guarded (Told resource kind) (ltb 0 this.senders)
        (λ y.
          with_id_lem (Told resource kind) (λ op. try_send_end result op this.ends) this k
            (λ ids n. go ids n this.ends k.of_resource))
        k
    where
      go :
          (ids : Ids)
          → ids.next_async_lock_waiter ≡ this.ids.next_async_lock_waiter + 1
          → (e : Ends) → OfResource resource e
          → Told resource kind
              (try_send_end result this.ids.next_async_lock_waiter e (record this { ids = ids }))
      go ids n (bounded tx rx) (t, _) = resolves send (try_sent_outcome result) ids _ n (rw t refl)
      go ids n (unbounded tx rx) _ =
          Told-quiet resource kind this k (record this { ids = ids }) refl refl refl refl k.stands
            (Unused-later resource kind this k ids (omega arith))

  pub receives_lem : Told resource kind (take_step receives this)
  unfolding take_step recv_end
  receives_lem =
      guarded (Told resource kind) this.has_receiver
        (λ y.
          with_id_lem (Told resource kind)
            (λ op this'. record this' {
              futures = put op (some (receiving (recv_end op this.ends))) this'.futures;
            })
            this k (λ ids n. new_future resource kind this k _ ids n (go this.ends k.of_resource)))
        k
    where
      go :
          (e : Ends)
          → OfResource resource e
          → let op = this.ids.next_async_lock_waiter in
            Stands resource op (some (receiving (recv_end op e))) unknown
      go (bounded tx rx) (_, r) = (r, refl, refl)
      go (unbounded tx rx) (_, r) = (r, refl, refl)

  pub tries_recv_lem : (result : Tried) → Told resource kind (take_step (tries_recv result) this)
  unfolding take_step
  tries_recv_lem result =
      guarded (Told resource kind) this.has_receiver
        (λ y.
          with_id_lem (Told resource kind)
            (λ op this'. record this' { hook = try_recv_end result op this.ends this'.hook }) this k
            (λ ids n.
              resolves recv (try_recv_outcome result) ids _ n
                (try_recv_end_lem resource this.hook result _ this.ends k.of_resource)))
        k
