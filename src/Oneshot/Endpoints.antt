-- ===== src/Oneshot/Endpoints.antt =====
-- crates/laplace-model-rt/src/oneshot.rs, and the calls of hooks.rs's `AsyncChannelHook` that it makes.
--
-- The wrapped tokio endpoints are not code of the crate: what a call of them returns is an argument,
-- and so are the ids, which the counters give. The value that is sent is left out.
use laplace.Prelude.{
  ℕ, Bool, true, false, ◌&&◌, not, Option, none, some, List, [], ◌∷◌, ◌++◌, if◌then◌else◌,
}

pub data AsyncChannelOp : Type 0 where
  send recv changed : AsyncChannelOp

pub data AsyncChannelOutcome : Type 0 where
  ok closed empty full : AsyncChannelOutcome

pub data AsyncChannelSide : Type 0 where
  sender receiver : AsyncChannelSide

pub data AsyncChannelKind : Type 0 where
  mpsc_bounded : (capacity : ℕ) → AsyncChannelKind
  mpsc_unbounded oneshot watch : AsyncChannelKind

pub data ChannelCall : Type 0 where
  channel_created : (channel : ℕ) (kind : AsyncChannelKind) → ChannelCall
  op_requested : (channel op : ℕ) (kind : AsyncChannelOp) → ChannelCall
  op_resolved :
      (channel op : ℕ) (kind : AsyncChannelOp) (outcome : AsyncChannelOutcome) → ChannelCall
  op_dropped : (channel op : ℕ) → ChannelCall
  endpoint_cloned endpoint_dropped : (channel : ℕ) (side : AsyncChannelSide) → ChannelCall
  channel_closed : (channel : ℕ) → ChannelCall

-- The installed hook, as the calls that were made on it.
abbrev pub Hook : Type 0
Hook = Option (List ChannelCall)

abbrev pub report : ChannelCall → Hook → Hook
report c none = none
report c (some log) = some (log ++ (c ∷ []))

-- `inner` is `Some` until the value is sent.
pub record Sender : Type 0 where
  pub inner : Bool
  pub resource : ℕ

pub record Receiver : Type 0 where
  pub resource : ℕ
  pub op : ℕ
  pub requested_emitted : Bool
  pub resolved : Bool

unfoldable pub channel : (resource op : ℕ) → Hook → (Sender × Receiver) × Hook
channel resource op hook = (
  (
    record { inner = true; resource = resource },
    record { resource = resource; op = op; requested_emitted = false; resolved = false },
  ),
  report (channel_created resource oneshot) hook,
)

-- `Drop for Sender`.
unfoldable pub drop_sender : Sender → Hook → Hook
drop_sender this hook =
    if this.inner then report (endpoint_dropped this.resource sender) hook else hook

-- `Sender::send`, which drops the sender at its end: `none` where it panics.
unfoldable pub send_value : (accepted : Bool) (op : ℕ) → Sender → Hook → Option Hook
unfolding drop_sender
send_value accepted op this hook =
    if this.inner
    then some (
        drop_sender (record this { inner = false })
          (report (op_resolved this.resource op send (if accepted then ok else closed)) hook))
    else none

-- `Result<T, TryRecvError>`.
pub data Tried : Type 0 where
  got nothing_yet gone : Tried

unfoldable pub outcome_of : Tried → AsyncChannelOutcome
outcome_of got = ok
outcome_of nothing_yet = empty
outcome_of gone = closed

unfoldable pub try_recv : Tried → (op : ℕ) → Receiver → Hook → Hook
unfolding outcome_of
try_recv result op this hook = report (op_resolved this.resource op recv (outcome_of result)) hook

unfoldable pub close : Receiver → Hook → Hook
close this hook = report (channel_closed this.resource) hook

-- `Poll<Result<T, RecvError>>`.
pub data Received : Type 0 where
  pending : Received
  ready : (is_ok : Bool) → Received

-- `Receiver::poll`.
unfoldable pub poll_recv : Received → Receiver → Hook → Receiver × Hook
poll_recv pending this hook = if this.requested_emitted then (this, hook) else (
  record this { requested_emitted = true },
  report (op_requested this.resource this.op recv) hook,
)
poll_recv (ready is_ok) this hook = (
  record this { resolved = true },
  report (op_resolved this.resource this.op recv (if is_ok then ok else closed)) hook,
)

-- `Drop for Receiver`.
unfoldable pub drop_receiver : Receiver → Hook → Hook
drop_receiver this hook =
    let hook' =
      if this.requested_emitted && not this.resolved
      then report (op_dropped this.resource this.op) hook
      else hook in
    report (endpoint_dropped this.resource receiver) hook'
