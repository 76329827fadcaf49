-- ===== src/Mpsc/Told.antt =====
-- The users of an mpsc channel keep to the protocol, whatever they do.
use laplace.Prelude.{
  ℕ, ◌+◌, ◌<◌, ◌≤◌, ◌≡◌, ◌∙◌, ◌⊎◌, inl, inr, refl, sym, subst, ==_iff, Bool, true, false, ◌==◌,
  Bool-cases, Option, none, some, List, [], ◌∷◌, ◌++◌, arith,
}
use laplace.Hooks.Counters.{Ids, next_async_lock_waiter_id}
use laplace.Oneshot.Endpoints.{ChannelCall, channel_created, AsyncChannelKind, report}
use laplace.Mpsc.Users.{Ends, bounded, unbounded, Future, sending, receiving, Users, put}
use laplace.Mpsc.Protocol.{
  Phase, unknown, waiting, ended, Seen, start, read, read_all, read_all-append, AllOf, AllOf-append,
  channel_of,
}

-- Where a future stands.
abbrev pub phase_of : (requested_emitted resolved : Bool) → Phase
phase_of requested true = ended
phase_of true false = waiting
phase_of false false = unknown

abbrev pub Stands : (resource op : ℕ) → Option Future → Phase → Type 0
Stands resource op none p = (p ≡ unknown) ⊎ (p ≡ ended)
Stands resource op (some (sending f)) p =
    (f.resource ≡ resource) × (f.op ≡ op) × (p ≡ phase_of f.requested_emitted f.resolved)
Stands resource op (some (receiving f)) p =
    (f.resource ≡ resource) × (f.op ≡ op) × (p ≡ phase_of f.requested_emitted f.resolved)

abbrev pub OfResource : ℕ → Ends → Type 0
OfResource resource (bounded tx rx) = (tx.resource ≡ resource) × (rx.resource ≡ resource)
OfResource resource (unbounded tx rx) = (tx.resource ≡ resource) × (rx.resource ≡ resource)

-- Operations have the ids below the counter.
abbrev pub Unused : (next op : ℕ) → Option Future → Phase → Type 0
Unused next op none p = (op < next) ⊎ (p ≡ unknown)
Unused next op (some f) p = op < next

-- What the hook was told of the channel of kind `kind`, and that a reader knows how things are.
pub record Told (resource : ℕ) (kind : AsyncChannelKind) (this : Users) : Type 0 where
  pub log : List ChannelCall
  pub seen : Seen
  pub hooked : this.hook ≡ some (channel_created resource kind ∷ log)
  pub in_order : read_all log start ≡ some seen
  pub one_channel : AllOf resource log
  pub of_resource : OfResource resource this.ends
  pub senders_right : seen.senders_seen ≡ this.senders
  pub receiver_right : seen.receiver_seen ≡ this.has_receiver
  pub stands : (op : ℕ) → Stands resource op (this.futures op) (seen.phases op)
  pub unused :
      (op : ℕ) → Unused this.ids.next_async_lock_waiter op (this.futures op) (seen.phases op)

module _ (resource : ℕ) (kind : AsyncChannelKind) (this : Users) (k : Told resource kind this) where
  -- One call more, which a reader accepts.
  pub Told-report :
      (x : ChannelCall) (seen' : Seen) (next : Users)
      → channel_of x ≡ resource
      → read x k.seen ≡ some seen'
      → next.hook ≡ report x this.hook
      → next.ends ≡ this.ends
      → seen'.senders_seen ≡ next.senders
      → seen'.receiver_seen ≡ next.has_receiver
      → ((op : ℕ) → Stands resource op (next.futures op) (seen'.phases op))
      → ((op : ℕ) → Unused next.ids.next_async_lock_waiter op (next.futures op) (seen'.phases op))
      → Told resource kind next
  Told-report x seen' next c accepted hook ends senders rx stands unused = record {
    log = k.log ++ (x ∷ []);
    seen = seen';
    hooked = rw (hook, k.hooked) refl;
    in_order = read_all-append k.log x start k.seen k.in_order ∙ accepted;
    one_channel = AllOf-append resource k.log x k.one_channel c;
    of_resource = rw ends k.of_resource;
    senders_right = senders;
    receiver_right = rx;
    stands = stands;
    unused = unused;
  }

  -- No call, and nothing else than the futures and the ids has changed.
  pub Told-quiet :
      (next : Users)
      → next.hook ≡ this.hook
      → next.ends ≡ this.ends
      → next.senders ≡ this.senders
      → next.has_receiver ≡ this.has_receiver
      → ((op : ℕ) → Stands resource op (next.futures op) (k.seen.phases op))
      → ((op : ℕ) → Unused next.ids.next_async_lock_waiter op (next.futures op) (k.seen.phases op))
      → Told resource kind next
  Told-quiet next hook ends senders rx stands unused = record {
    log = k.log;
    seen = k.seen;
    hooked = hook ∙ k.hooked;
    in_order = k.in_order;
    one_channel = k.one_channel;
    of_resource = rw ends k.of_resource;
    senders_right = k.senders_right ∙ sym senders;
    receiver_right = k.receiver_right ∙ sym rx;
    stands = stands;
    unused = unused;
  }

  -- Nothing is known of the next id.
  pub fresh_lem :
      let op = this.ids.next_async_lock_waiter in
      (this.futures op ≡ none) × (k.seen.phases op ≡ unknown)
  fresh_lem =
      let op = this.ids.next_async_lock_waiter in
      go (this.futures op) (k.seen.phases op) (k.unused op)
    where
      go :
          (f : Option Future) (p : Phase)
          → Unused this.ids.next_async_lock_waiter this.ids.next_async_lock_waiter f p
          → (f ≡ none) × (p ≡ unknown)
      go none p u = ground arith
      go (some f) p u = absurd (omega arith)

  pub Unused-later :
      (ids : Ids)
      → this.ids.next_async_lock_waiter ≤ ids.next_async_lock_waiter
      → (op : ℕ) → Unused ids.next_async_lock_waiter op (this.futures op) (k.seen.phases op)
  Unused-later ids le op = go (this.futures op) (k.seen.phases op) (k.unused op)
    where
      go :
          (f : Option Future) (p : Phase)
          → Unused this.ids.next_async_lock_waiter op f p
          → Unused ids.next_async_lock_waiter op f p
      go none p u = ground arith
      go (some f) p u = omega arith

pub next_id_lem :
    (ids : Ids)
    → (next_async_lock_waiter_id ids ≡ none)
      ⊎ ((ids' : Ids) × (next_async_lock_waiter_id ids ≡ some (ids.next_async_lock_waiter, ids'))
          × (ids'.next_async_lock_waiter ≡ ids.next_async_lock_waiter + 1))
unfolding next_async_lock_waiter_id
next_id_lem ids = ground arith

module _ {A : Type 0} {B : Type 0} (P : ℕ → A → B → Type 0) (op : ℕ) (a : A) (b : B) (f : ℕ → A)
    (g : ℕ → B) where
  pub put-first : P op a (g op) → ((o : ℕ) → P o (f o) (g o)) → (o : ℕ) → P o (put op a f o) (g o)
  put-first here all o = elim (Bool-cases (o == op)) [
    | inl y ↦ rw y (subst (λ n. P n a (g n)) (sym ((==_iff o op).0 y)) here)
    | inr n ↦ rw n (all o)
  ]

  pub put-second : P op (f op) b → ((o : ℕ) → P o (f o) (g o)) → (o : ℕ) → P o (f o) (put op b g o)
  put-second here all o = elim (Bool-cases (o == op)) [
    | inl y ↦ rw y (subst (λ n. P n (f n) b) (sym ((==_iff o op).0 y)) here)
    | inr n ↦ rw n (all o)
  ]

  pub put-both :
      P op a b → ((o : ℕ) → P o (f o) (g o)) → (o : ℕ) → P o (put op a f o) (put op b g o)
  put-both here all o = elim (Bool-cases (o == op)) [
    | inl y ↦ rw y (subst (λ n. P n a b) (sym ((==_iff o op).0 y)) here)
    | inr n ↦ rw n (all o)
  ]
