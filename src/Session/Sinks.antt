-- ===== src/Session/Sinks.antt =====
-- crates/laplace-probe-sdk/src/session.rs: the sinks of a probe session and the logical thread ids.
--
-- `Process` holds the thread-local cells, as maps from OS threads, and the process-wide slots. A
-- channel of the standard library is a number, and a send on it an entry of `sent`; a receiver
-- that is gone is ignored by the source (`let _ = tx.send(..)`) and here. Each operation takes the
-- OS thread that calls it. The cloud client is an optional feature, and is not modelled.
use laplace.Prelude.{
  ℕ, ◌==◌, if◌then◌else◌, ◌+◌, ◌%◌, ◌^◌, Option, none, some, List, [], ◌∷◌, ◌++◌, lookup, insert,
}
use laplace.Event.{ProbeEvent}

pub record Process (J : Type 0) : Type 0 where
  pub probe_sender : List (ℕ × Option ℕ)
  pub probe_thread_id : List (ℕ × ℕ)
  pub current_task : List (ℕ × Option ℕ)
  pub global_probe_sender : Option ℕ
  pub session_sender : Option ℕ
  pub next_implicit_thread_id : ℕ
  pub sent : List (ℕ × ProbeEvent J)

module _ {J : Type 0} where
  abbrev pub fresh_process : Process J
  fresh_process = record {
    probe_sender = [];
    probe_thread_id = [];
    current_task = [];
    global_probe_sender = none;
    session_sender = none;
    next_implicit_thread_id = 0;
    sent = [];
  }

  unfoldable pub local_sender : ℕ → Process J → Option ℕ
  local_sender os s = elim (lookup os s.probe_sender) [ none ↦ none | some slot ↦ slot ]

  unfoldable pub set_probe_sender : ℕ → ℕ → Process J → Process J
  set_probe_sender os tx s = record s {
    probe_sender = insert os (some tx) s.probe_sender;
    next_implicit_thread_id = 0;
    global_probe_sender = some tx;
  }

  unfoldable pub clear_probe_sender : ℕ → Process J → Process J
  clear_probe_sender os s = record s {
    probe_sender = insert os none s.probe_sender;
    global_probe_sender = none;
  }

  -- `CaptureSession::begin`, once it has taken `CAPTURE_LOCK`, which waits for the session before to
  -- finish, with the sender of the channel that it makes.
  unfoldable pub begin : ℕ → Process J → Process J
  begin tx s = record s { next_implicit_thread_id = 0; session_sender = some tx }

  -- What the collector thread received on its channel.
  unfoldable pub received : ℕ → List (ℕ × ProbeEvent J) → List (ProbeEvent J)
  received tx [] = []
  received tx ((c, e) ∷ rest) = let later = received tx rest in if c == tx then e ∷ later else later

  -- `CaptureSession::finish`, for the session whose collector reads `tx`.
  unfoldable pub finish : ℕ → Process J → Process J × List (ProbeEvent J)
  unfolding received
  finish tx s = (record s { session_sender = none }, received tx s.sent)

  unfoldable pub set_probe_thread_id : ℕ → ℕ → Process J → Process J
  set_probe_thread_id os id s = record s { probe_thread_id = insert os id s.probe_thread_id }

  unfoldable pub set_current_task_id : ℕ → ℕ → Process J → Process J
  set_current_task_id os id s = record s { current_task = insert os (some id) s.current_task }

  unfoldable pub clear_current_task_id : ℕ → Process J → Process J
  clear_current_task_id os s = record s { current_task = insert os none s.current_task }

  unfoldable pub current_task_id : ℕ → Process J → Option ℕ
  current_task_id os s = elim (lookup os s.current_task) [ none ↦ none | some t ↦ t ]

  -- The counter is an `AtomicU64`, and `fetch_add` wraps.
  unfoldable pub current_thread_id : ℕ → Process J → Process J × ℕ
  current_thread_id os s = elim (lookup os s.probe_thread_id) [
    | some id ↦ (s, id)
    | none ↦ (
      record s {
        next_implicit_thread_id = (s.next_implicit_thread_id + 1) % 2 ^ 64;
        probe_thread_id = insert os s.next_implicit_thread_id s.probe_thread_id;
      },
      s.next_implicit_thread_id,
    )
  ]

  -- The sink that `emit` picks.
  unfoldable pub sink : ℕ → Process J → Option ℕ
  unfolding local_sender
  sink os s = elim (local_sender os s) [
    | some tx ↦ some tx
    | none ↦ elim s.global_probe_sender [ some tx ↦ some tx | none ↦ s.session_sender ]
  ]

  unfoldable pub emit : ℕ → ProbeEvent J → Process J → Process J
  unfolding sink
  emit os e s = elim (sink os s) [
    | none ↦ s
    | some tx ↦ record s { sent = s.sent ++ ((tx, e) ∷ []) }
  ]
