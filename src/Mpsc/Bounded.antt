-- ===== src/Mpsc/Bounded.antt =====
-- crates/laplace-model-rt/src/mpsc.rs: the ends of a bounded channel and the futures of both kinds.
--
-- What the tokio endpoints answer is an argument, and so are the ids, which the counters give. The
-- values are left out.
use laplace.Prelude.{ℕ, Bool, true, false, ◌&&◌, not, if◌then◌else◌}
use laplace.Oneshot.Endpoints.{
  channel_created, op_requested, op_resolved, op_dropped, endpoint_cloned, endpoint_dropped,
  channel_closed, mpsc_bounded, AsyncChannelOutcome, ok, closed, empty, full, send, recv, sender,
  receiver, Hook, report, Received, pending, ready, Tried, got, nothing_yet, gone,
}

pub record MpscSender : Type 0 where
  pub resource : ℕ

pub record MpscReceiver : Type 0 where
  pub resource : ℕ

unfoldable pub mpsc_channel : (buffer resource : ℕ) → Hook → (MpscSender × MpscReceiver) × Hook
mpsc_channel buffer resource hook = (
  (record { resource = resource }, record { resource = resource }),
  report (channel_created resource (mpsc_bounded buffer)) hook,
)

unfoldable pub clone_sender : MpscSender → Hook → MpscSender × Hook
clone_sender this hook = (this, report (endpoint_cloned this.resource sender) hook)

unfoldable pub drop_mpsc_sender : MpscSender → Hook → Hook
drop_mpsc_sender this hook = report (endpoint_dropped this.resource sender) hook

pub record ModelMpscSend : Type 0 where
  pub resource : ℕ
  pub op : ℕ
  pub requested_emitted : Bool
  pub resolved : Bool

unfoldable pub mpsc_send : (op : ℕ) → MpscSender → ModelMpscSend
mpsc_send op this = record {
  resource = this.resource;
  op = op;
  requested_emitted = false;
  resolved = false;
}

-- `Result<(), TrySendError<T>>`.
pub data TrySent : Type 0 where
  sent no_room receiver_gone : TrySent

unfoldable pub try_sent_outcome : TrySent → AsyncChannelOutcome
try_sent_outcome sent = ok
try_sent_outcome no_room = full
try_sent_outcome receiver_gone = closed

unfoldable pub try_send : TrySent → (op : ℕ) → MpscSender → Hook → Hook
unfolding try_sent_outcome
try_send result op this hook =
    report (op_resolved this.resource op send (try_sent_outcome result)) hook

-- `ModelMpscSend::poll`: `ready` with whether the result is `Ok`.
unfoldable pub poll_mpsc_send : Received → ModelMpscSend → Hook → ModelMpscSend × Hook
poll_mpsc_send pending this hook = if this.requested_emitted then (this, hook) else (
  record this { requested_emitted = true },
  report (op_requested this.resource this.op send) hook,
)
poll_mpsc_send (ready is_ok) this hook = (
  record this { resolved = true },
  report (op_resolved this.resource this.op send (if is_ok then ok else closed)) hook,
)

unfoldable pub drop_mpsc_send : ModelMpscSend → Hook → Hook
drop_mpsc_send this hook =
    if this.requested_emitted && not this.resolved
    then report (op_dropped this.resource this.op) hook
    else hook

unfoldable pub drop_mpsc_receiver : MpscReceiver → Hook → Hook
drop_mpsc_receiver this hook = report (endpoint_dropped this.resource receiver) hook

pub record ModelMpscRecv : Type 0 where
  pub resource : ℕ
  pub op : ℕ
  pub requested_emitted : Bool
  pub resolved : Bool

unfoldable pub mpsc_recv : (op : ℕ) → MpscReceiver → ModelMpscRecv
mpsc_recv op this = record {
  resource = this.resource;
  op = op;
  requested_emitted = false;
  resolved = false;
}

unfoldable pub try_recv_outcome : Tried → AsyncChannelOutcome
try_recv_outcome got = ok
try_recv_outcome nothing_yet = empty
try_recv_outcome gone = closed

unfoldable pub mpsc_try_recv : Tried → (op : ℕ) → MpscReceiver → Hook → Hook
unfolding try_recv_outcome
mpsc_try_recv result op this hook =
    report (op_resolved this.resource op recv (try_recv_outcome result)) hook

unfoldable pub mpsc_close : MpscReceiver → Hook → Hook
mpsc_close this hook = report (channel_closed this.resource) hook

-- `ModelMpscRecv::poll`: `ready` with whether there is a value.
unfoldable pub poll_mpsc_recv : Received → ModelMpscRecv → Hook → ModelMpscRecv × Hook
poll_mpsc_recv pending this hook = if this.requested_emitted then (this, hook) else (
  record this { requested_emitted = true },
  report (op_requested this.resource this.op recv) hook,
)
poll_mpsc_recv (ready is_some) this hook = (
  record this { resolved = true },
  report (op_resolved this.resource this.op recv (if is_some then ok else closed)) hook,
)

unfoldable pub drop_mpsc_recv : ModelMpscRecv → Hook → Hook
drop_mpsc_recv this hook =
    if this.requested_emitted && not this.resolved
    then report (op_dropped this.resource this.op) hook
    else hook
