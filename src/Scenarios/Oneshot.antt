-- ===== src/Scenarios/Oneshot.antt =====
-- A oneshot channel whose receiver waits and is dropped before the value is sent.
use laplace.Prelude.{◌≡◌, refl, false, some, none, List, [], ◌∷◌}
use laplace.Oneshot.Endpoints.{
  channel_created, op_requested, op_dropped, endpoint_dropped, op_resolved, oneshot, send, recv,
  closed, receiver, pending,
}
use laplace.Oneshot.Ends.{Channel, made, Use, sends, polls, drops_receiver, use_all, EndsTold}
use laplace.Oneshot.Uses.{use_all-EndsTold}

abbrev uses : List Use
uses = polls pending ∷ polls pending ∷ drops_receiver ∷ sends false 9 ∷ []

use_all_trace :
    use_all uses (made 3 8)
    ≡ some (record {
      tx = none;
      rx = none;
      hook = some (
          channel_created 3 oneshot
          ∷ op_requested 3 8 recv
          ∷ op_dropped 3 8
          ∷ endpoint_dropped 3 receiver
          ∷ op_resolved 3 9 send closed
          ∷ []);
    })
unfolding use_all made
use_all_trace = refl

use_all-EndsTold_example : (c : Channel) × (use_all uses (made 3 8) ≡ some c) × EndsTold 8 c
use_all-EndsTold_example = use_all-EndsTold 3 8 uses
