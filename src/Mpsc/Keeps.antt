-- ===== src/Mpsc/Keeps.antt =====
-- Every step of the users of an mpsc channel keeps to the protocol.
use laplace.Prelude.{
  ℕ, suc, ◌+◌, ◌-◌, ◌≡◌, inl, inr, refl, ap, Bool, true, false, ltb, none, some, if◌then◌else◌,
  arith,
}
use laplace.Hooks.Counters.{Ids}
use laplace.Oneshot.Endpoints.{
  ChannelCall, op_resolved, endpoint_cloned, endpoint_dropped, channel_closed, recv, sender,
  receiver, AsyncChannelKind, Hook, report, Tried,
}
use laplace.Mpsc.Bounded.{try_recv_outcome}
use laplace.Mpsc.Users.{
  Ends, bounded, unbounded, Future, Users, clones, drops_sender, closes, drops_receiver, put,
  with_id, take_step, clone_end, drop_sender_end, drop_receiver_end, close_end, try_recv_end,
}
use laplace.Mpsc.Protocol.{unknown, ended, read, channel_of}
use laplace.Mpsc.Told.{
  Stands, OfResource, Unused, Told, Told-report, Told-quiet, fresh_lem, Unused-later, next_id_lem,
  put-first, put-second,
}

-- What the ends tell.
module _ (resource : ℕ) (hook : Hook) where
  ends_lem :
      (e : Ends)
      → OfResource resource e
      → (clone_end e hook ≡ report (endpoint_cloned resource sender) hook)
        × (drop_sender_end e hook ≡ report (endpoint_dropped resource sender) hook)
        × (drop_receiver_end e hook ≡ report (endpoint_dropped resource receiver) hook)
        × (close_end e hook ≡ report (channel_closed resource) hook)
  unfolding clone_end drop_sender_end drop_receiver_end close_end
  ends_lem (bounded tx rx) (t, r) = rw (t, r) (refl, refl, refl, refl)
  ends_lem (unbounded tx rx) (t, r) = rw (t, r) (refl, refl, refl, refl)

  pub try_recv_end_lem :
      (result : Tried) (op : ℕ) (e : Ends)
      → OfResource resource e
      → try_recv_end result op e hook
        ≡ report (op_resolved resource op recv (try_recv_outcome result)) hook
  unfolding try_recv_end
  try_recv_end_lem result op (bounded tx rx) (t, r) = rw r refl
  try_recv_end_lem result op (unbounded tx rx) (t, r) = rw r refl

-- A step that needs what `b` says.
pub guarded :
    (P : Users → Type 0) (b : Bool) {this next : Users}
    → (b ≡ true → P next)
    → P this
    → P (if b then next else this)
guarded P true f p = f refl
guarded P false f p = p

pub with_id_lem :
    (P : Users → Type 0) (f : ℕ → Users → Users) (this : Users)
    → P this
    → ((ids : Ids)
        → ids.next_async_lock_waiter ≡ this.ids.next_async_lock_waiter + 1
        → P (f this.ids.next_async_lock_waiter (record this { ids = ids })))
    → P (with_id f this)
with_id_lem P f this p each = elim (next_id_lem this.ids) [
  | inl out ↦ rw (out, with_id) p
  | inr (ids, fresh, n) ↦ rw (fresh, with_id) (each ids n)
]

module _ (resource : ℕ) (kind : AsyncChannelKind) (this : Users) (k : Told resource kind this) where
  pub clones_lem : Told resource kind (take_step clones this)
  unfolding take_step
  clones_lem =
      guarded (Told resource kind) (ltb 0 this.senders)
        (λ y.
          Told-report resource kind this k (endpoint_cloned resource sender)
            (record k.seen { senders_seen = suc k.seen.senders_seen })
            (record this { senders = suc this.senders; hook = clone_end this.ends this.hook }) refl
            (unfold read in ground (arith, k.senders_right, y))
            (ends_lem resource this.hook this.ends k.of_resource).0 refl (ap suc k.senders_right)
            k.receiver_right k.stands k.unused)
        k

  pub drops_sender_lem : Told resource kind (take_step drops_sender this)
  unfolding take_step
  drops_sender_lem =
      guarded (Told resource kind) (ltb 0 this.senders)
        (λ y.
          Told-report resource kind this k (endpoint_dropped resource sender)
            (record k.seen { senders_seen = k.seen.senders_seen - 1 })
            (record this { senders = this.senders - 1; hook = drop_sender_end this.ends this.hook })
            refl (unfold read in ground (arith, k.senders_right, y))
            (ends_lem resource this.hook this.ends k.of_resource).1 refl
            (ap (λ n. n - 1) k.senders_right) k.receiver_right k.stands k.unused)
        k

  pub closes_lem : Told resource kind (take_step closes this)
  unfolding take_step
  closes_lem =
      guarded (Told resource kind) this.has_receiver
        (λ y.
          Told-report resource kind this k (channel_closed resource) k.seen
            (record this { hook = close_end this.ends this.hook }) refl
            (unfold read in rw (k.receiver_right, y) refl)
            (ends_lem resource this.hook this.ends k.of_resource).3 refl k.senders_right
            k.receiver_right k.stands k.unused)
        k

  pub drops_receiver_lem : Told resource kind (take_step drops_receiver this)
  unfolding take_step
  drops_receiver_lem =
      guarded (Told resource kind) this.has_receiver
        (λ y.
          Told-report resource kind this k (endpoint_dropped resource receiver)
            (record k.seen { receiver_seen = false })
            (record this { has_receiver = false; hook = drop_receiver_end this.ends this.hook })
            refl (unfold read in rw (k.receiver_right, y) refl)
            (ends_lem resource this.hook this.ends k.of_resource).2 refl k.senders_right refl
            k.stands k.unused)
        k

  -- A call under a new id, about which nothing was known.
  pub new_call :
      (x : ChannelCall) (ids : Ids) (hook : Hook)
      → let op = this.ids.next_async_lock_waiter in
        ids.next_async_lock_waiter ≡ op + 1
        → channel_of x ≡ resource
        → read x k.seen ≡ some (record k.seen { phases = put op ended k.seen.phases })
        → hook ≡ report x this.hook
        → Told resource kind (record this { ids = ids; hook = hook })
  new_call x ids hook n c accepted told =
      let op = this.ids.next_async_lock_waiter in
      let (no_future, _) = fresh_lem resource kind this k in
      Told-report resource kind this k x (record k.seen { phases = put op ended k.seen.phases })
        (record this { ids = ids; hook = hook }) c accepted told refl k.senders_right
        k.receiver_right
        (put-second (Stands resource) op none ended this.futures k.seen.phases
          (rw no_future (inr refl)) k.stands)
        (put-second (Unused ids.next_async_lock_waiter) op none ended this.futures k.seen.phases
          (rw no_future (inl (omega arith))) (Unused-later resource kind this k ids (omega arith)))

  -- A future under a new id.
  pub new_future :
      (f : Future) (ids : Ids)
      → let op = this.ids.next_async_lock_waiter in
        ids.next_async_lock_waiter ≡ op + 1
        → Stands resource op (some f) unknown
        → Told resource kind (record this { ids = ids; futures = put op (some f) this.futures })
  new_future f ids n stands =
      let op = this.ids.next_async_lock_waiter in
      let (no_future, not_known) = fresh_lem resource kind this k in
      Told-quiet resource kind this k
        (record this { ids = ids; futures = put op (some f) this.futures }) refl refl refl refl
        (put-first (Stands resource) op (some f) ended this.futures k.seen.phases
          (rw not_known stands) k.stands)
        (put-first (Unused ids.next_async_lock_waiter) op (some f) ended this.futures k.seen.phases
          (omega arith) (Unused-later resource kind this k ids (omega arith)))
