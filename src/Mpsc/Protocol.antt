-- ===== src/Mpsc/Protocol.antt =====
-- What an observer of an mpsc channel may rely on, as a reader of the hook's calls.
use laplace.Prelude.{
  ℕ, suc, ◌-◌, ◌≡◌, Bool, true, false, ltb, Option, none, some, List, [], ◌∷◌, ◌++◌, if◌then◌else◌,
  arith,
}
use laplace.Oneshot.Endpoints.{
  ChannelCall, channel_created, op_requested, op_resolved, op_dropped, endpoint_cloned,
  endpoint_dropped, channel_closed, sender, receiver,
}
use laplace.Mpsc.Users.{put}

-- Where an operation stands: it is asked for at most once and ends at most once.
pub data Phase : Type 0 where
  unknown waiting ended : Phase

-- What the reader knows.
pub record Seen : Type 0 where
  pub senders_seen : ℕ
  pub receiver_seen : Bool
  pub phases : ℕ → Phase

abbrev pub start : Seen
start = record { senders_seen = 1; receiver_seen = true; phases = λ op. unknown }

abbrev is_unknown : Phase → Bool
is_unknown unknown = true
is_unknown _ = false

abbrev is_waiting : Phase → Bool
is_waiting waiting = true
is_waiting _ = false

abbrev has_ended : Phase → Bool
has_ended ended = true
has_ended _ = false

-- One call: `none` if it is out of order.
unfoldable pub read : ChannelCall → Seen → Option Seen
read (channel_created _ _) s = none
read (endpoint_cloned _ sender) s =
    if ltb 0 s.senders_seen then some (record s { senders_seen = suc s.senders_seen }) else none
read (endpoint_cloned _ receiver) s = none
read (endpoint_dropped _ sender) s =
    if ltb 0 s.senders_seen then some (record s { senders_seen = s.senders_seen - 1 }) else none
read (endpoint_dropped _ receiver) s =
    if s.receiver_seen then some (record s { receiver_seen = false }) else none
read (channel_closed _) s = if s.receiver_seen then some s else none
read (op_requested _ op _) s =
    if is_unknown (s.phases op) then some (record s { phases = put op waiting s.phases }) else none
read (op_resolved _ op _ _) s =
    if has_ended (s.phases op) then none else some (record s { phases = put op ended s.phases })
read (op_dropped _ op) s =
    if is_waiting (s.phases op) then some (record s { phases = put op ended s.phases }) else none

unfoldable pub read_all : List ChannelCall → Seen → Option Seen
unfolding read
read_all [] s = some s
read_all (c ∷ cs) s = elim (read c s) [ none ↦ none | some s' ↦ read_all cs s' ]

pub read_all-append :
    (cs : List ChannelCall) (c : ChannelCall) (s seen : Seen)
    → read_all cs s ≡ some seen
    → read_all (cs ++ (c ∷ [])) s ≡ read c seen
unfolding read_all
read_all-append [] c s seen h = ground arith
read_all-append (d ∷ cs) c s seen h = go (read_all-append cs c) (read d s) h
  where
    go :
        ((s' seen' : Seen)
          → read_all cs s' ≡ some seen'
          → read_all (cs ++ (c ∷ [])) s' ≡ read c seen')
        → (o : Option Seen) → elim o [ none ↦ none | some s' ↦ read_all cs s' ] ≡ some seen
        → elim o [ none ↦ none | some s' ↦ read_all (cs ++ (c ∷ [])) s' ] ≡ read c seen
    go rest none h = ground arith
    go rest (some s') h = rest s' seen h

-- All the calls are about the one channel.
abbrev pub channel_of : ChannelCall → ℕ
channel_of (channel_created c _) = c
channel_of (op_requested c _ _) = c
channel_of (op_resolved c _ _ _) = c
channel_of (op_dropped c _) = c
channel_of (endpoint_cloned c _) = c
channel_of (endpoint_dropped c _) = c
channel_of (channel_closed c) = c

abbrev pub AllOf : ℕ → List ChannelCall → Type 0
AllOf resource [] = Unit {0}
AllOf resource (c ∷ cs) = (channel_of c ≡ resource) × AllOf resource cs

pub AllOf-append :
    (resource : ℕ) (cs : List ChannelCall) (c : ChannelCall)
    → AllOf resource cs
    → channel_of c ≡ resource
    → AllOf resource (cs ++ (c ∷ []))
AllOf-append resource [] c all one = (one, tt)
AllOf-append resource (d ∷ cs) c (first, all) one = (first, AllOf-append resource cs c all one)
