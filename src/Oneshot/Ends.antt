-- ===== src/Oneshot/Ends.antt =====
-- What a hook learns of the two ends of a oneshot channel, in whatever order they are used.
use laplace.Prelude.{
  ℕ, suc, ◌+◌, ◌<◌, ◌≡◌, ◌⊎◌, refl, Bool, true, false, ◌==◌, Option, none, some, List, [], ◌∷◌,
  ◌++◌, if◌then◌else◌, arith,
}
use laplace.Oneshot.Endpoints.{
  ChannelCall, op_requested, op_resolved, op_dropped, endpoint_dropped, send, recv, sender,
  receiver, Hook, report, Sender, Receiver, channel, drop_sender, send_value, Tried, try_recv,
  close, Received, poll_recv, drop_receiver,
}

-- The ends that are not used up yet, and the hook.
pub record Channel : Type 0 where
  pub tx : Option Sender
  pub rx : Option Receiver
  pub hook : Hook

unfoldable pub made : (resource op : ℕ) → Channel
unfolding channel
made resource op =
    let ((tx, rx), hook) = channel resource op (some []) in
    record { tx = some tx; rx = some rx; hook = hook }

pub data Use : Type 0 where
  sends : (accepted : Bool) (op : ℕ) → Use
  drops_sender : Use
  polls : Received → Use
  tries : Tried → (op : ℕ) → Use
  closes drops_receiver : Use

abbrev use_sender : (Sender → Hook → Option Hook) → Channel → Option Channel
use_sender f c = elim c.tx [
  | none ↦ some c
  | some tx ↦ elim (f tx c.hook) [
    | none ↦ none
    | some hook ↦ some (record c { tx = none; hook = hook })
  ]
]

abbrev use_receiver : (Receiver → Hook → Option Receiver × Hook) → Channel → Option Channel
use_receiver f c = elim c.rx [
  | none ↦ some c
  | some rx ↦ let (rx', hook) = f rx c.hook in some (record c { rx = rx'; hook = hook })
]

-- One use of an end, which does nothing if the end is used up; `none` is a panic.
unfoldable pub use_end : Use → Channel → Option Channel
unfolding send_value drop_sender poll_recv try_recv close drop_receiver
use_end (sends accepted op) c = use_sender (send_value accepted op) c
use_end drops_sender c = use_sender (λ tx hook. some (drop_sender tx hook)) c
use_end (polls result) c =
    use_receiver (λ rx hook. let (rx', hook') = poll_recv result rx hook in (some rx', hook')) c
use_end (tries result op) c = use_receiver (λ rx hook. (some rx, try_recv result op rx hook)) c
use_end closes c = use_receiver (λ rx hook. (some rx, close rx hook)) c
use_end drops_receiver c = use_receiver (λ rx hook. (none, drop_receiver rx hook)) c

unfoldable pub use_all : List Use → Channel → Option Channel
unfolding use_end
use_all [] c = some c
use_all (u ∷ us) c = elim (use_end u c) [ none ↦ none | some c' ↦ use_all us c' ]

abbrev pub count : (ChannelCall → Bool) → List ChannelCall → ℕ
count f [] = 0
count f (c ∷ cs) = if f c then suc (count f cs) else count f cs

count-append :
    (f : ChannelCall → Bool) (cs ds : List ChannelCall)
    → count f (cs ++ ds) ≡ count f cs + count f ds
count-append f [] ds = omega arith
count-append f (c ∷ cs) ds = ground (arith, count-append f cs ds)

-- The sender comes to its end by a send or by a drop, the receiver by a drop.
abbrev pub ends_sender : ChannelCall → Bool
ends_sender (op_resolved _ _ send _) = true
ends_sender (endpoint_dropped _ sender) = true
ends_sender _ = false

abbrev pub ends_receiver : ChannelCall → Bool
ends_receiver (endpoint_dropped _ receiver) = true
ends_receiver _ = false

abbrev pub requests : ChannelCall → Bool
requests (op_requested _ _ _) = true
requests _ = false

-- The wait of the receiver comes to its end.
abbrev pub answers : ℕ → ChannelCall → Bool
answers op (op_resolved _ o recv _) = o == op
answers op (op_dropped _ o) = o == op
answers op _ = false

abbrev pub left {ℓ} : {A : Type ℓ} → Option A → ℕ
left none = 0
left (some _) = 1

abbrev pub SenderReady : Option Sender → Type 0
SenderReady none = Unit {0}
SenderReady (some tx) = tx.inner ≡ true

-- A wait that was told of is not over, or its end was told.
abbrev pub WaitTold : ℕ → Option Receiver → (asked answered : ℕ) → Type 0
WaitTold op none asked answered = (asked ≡ 0) ⊎ ((asked ≡ 1) × (0 < answered))
WaitTold op (some rx) asked answered =
    (rx.op ≡ op)
    × (asked ≡ (if rx.requested_emitted then 1 else 0))
    × ((rx.resolved ≡ false) ⊎ (0 < answered))

-- The hook was told of each end that is used up once and of no other, and of a wait as above.
pub record EndsTold (op : ℕ) (c : Channel) : Type 0 where
  pub log : List ChannelCall
  pub hooked : c.hook ≡ some log
  pub ready_sender : SenderReady c.tx
  pub sender_once : count ends_sender log + left c.tx ≡ 1
  pub receiver_once : count ends_receiver log + left c.rx ≡ 1
  pub wait : WaitTold op c.rx (count requests log) (count (answers op) log)

-- One call more on the hook.
module _ (op : ℕ) (c : Channel) (tx : Option Sender) (rx : Option Receiver) (x : ChannelCall)
    (k : EndsTold op c) where
  pub EndsTold-report :
      SenderReady tx
      → count ends_sender (x ∷ []) + left tx ≡ left c.tx
      → count ends_receiver (x ∷ []) + left rx ≡ left c.rx
      → WaitTold op rx
          (count requests k.log + count requests (x ∷ []))
          (count (answers op) k.log + count (answers op) (x ∷ []))
      → EndsTold op (record { tx = tx; rx = rx; hook = report x c.hook })
  EndsTold-report ready_tx s r w = record {
    log = k.log ++ (x ∷ []);
    hooked = rw k.hooked refl;
    ready_sender = ready_tx;
    sender_once = omega (arith, count-append ends_sender k.log (x ∷ []), k.sender_once);
    receiver_once = omega (arith, count-append ends_receiver k.log (x ∷ []), k.receiver_once);
    wait = rw (count-append requests k.log (x ∷ []), count-append (answers op) k.log (x ∷ [])) w;
  }

abbrev pub at : Option Sender → Option Receiver → Hook → Channel
at tx rx hook = record { tx = tx; rx = rx; hook = hook }

-- A use goes through, and what the hook was told is right afterwards.
abbrev pub Goes : ℕ → Use → Channel → Type 0
Goes op u c = (c' : Channel) × (use_end u c ≡ some c') × EndsTold op c'

pub WaitTold-more :
    (op : ℕ) (rx : Option Receiver) (asked answered more : ℕ)
    → WaitTold op rx asked answered
    → WaitTold op rx (asked + 0) (answered + more)
WaitTold-more op none asked answered more w = ground arith
WaitTold-more op (some rx) asked answered more w = ground arith

module _ (op : ℕ) (tx : Option Sender) (rx : Option Receiver) (hook : Hook)
    (k : EndsTold op (at tx rx hook)) where
  -- A call that is about neither end and asks for nothing.
  pub EndsTold-neither :
      (x : ChannelCall)
      → count ends_sender (x ∷ []) ≡ 0
      → count ends_receiver (x ∷ []) ≡ 0
      → count requests (x ∷ []) ≡ 0
      → EndsTold op (at tx rx (report x hook))
  EndsTold-neither x s r q =
      EndsTold-report op (at tx rx hook) tx rx x k k.ready_sender (omega (arith, s))
        (omega (arith, r)) (rw q (WaitTold-more op rx _ _ _ k.wait))
