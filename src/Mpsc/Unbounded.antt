-- ===== src/Mpsc/Unbounded.antt =====
-- crates/laplace-model-rt/src/mpsc.rs: the ends of an unbounded channel.
use laplace.Prelude.{ℕ, Bool, false, if◌then◌else◌}
use laplace.Oneshot.Endpoints.{
  channel_created, op_resolved, endpoint_cloned, endpoint_dropped, channel_closed, mpsc_unbounded,
  ok, closed, send, recv, sender, receiver, Hook, report, Tried,
}
use laplace.Mpsc.Bounded.{ModelMpscRecv, try_recv_outcome}

pub record UnboundedSender : Type 0 where
  pub resource : ℕ

pub record UnboundedReceiver : Type 0 where
  pub resource : ℕ

unfoldable pub unbounded_channel :
    (resource : ℕ) → Hook → (UnboundedSender × UnboundedReceiver) × Hook
unbounded_channel resource hook = (
  (record { resource = resource }, record { resource = resource }),
  report (channel_created resource mpsc_unbounded) hook,
)

unfoldable pub clone_unbounded_sender : UnboundedSender → Hook → UnboundedSender × Hook
clone_unbounded_sender this hook = (this, report (endpoint_cloned this.resource sender) hook)

unfoldable pub drop_unbounded_sender : UnboundedSender → Hook → Hook
drop_unbounded_sender this hook = report (endpoint_dropped this.resource sender) hook

unfoldable pub unbounded_send : (is_ok : Bool) (op : ℕ) → UnboundedSender → Hook → Hook
unbounded_send is_ok op this hook =
    report (op_resolved this.resource op send (if is_ok then ok else closed)) hook

unfoldable pub drop_unbounded_receiver : UnboundedReceiver → Hook → Hook
drop_unbounded_receiver this hook = report (endpoint_dropped this.resource receiver) hook

unfoldable pub unbounded_recv : (op : ℕ) → UnboundedReceiver → ModelMpscRecv
unbounded_recv op this = record {
  resource = this.resource;
  op = op;
  requested_emitted = false;
  resolved = false;
}

unfoldable pub unbounded_try_recv : Tried → (op : ℕ) → UnboundedReceiver → Hook → Hook
unfolding try_recv_outcome
unbounded_try_recv result op this hook =
    report (op_resolved this.resource op recv (try_recv_outcome result)) hook

unfoldable pub unbounded_close : UnboundedReceiver → Hook → Hook
unbounded_close this hook = report (channel_closed this.resource) hook
