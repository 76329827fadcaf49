-- ===== src/Projected/Attribution.antt =====
-- What is captured of the polls of tasks is attributed to the tasks.
use laplace.Prelude.{
  ℕ, ◌≡◌, ◌∙◌, refl, sym, subst, ap, Option, some, List, [], ◌∷◌, ◌++◌, map, lookup, insert,
  lookup-insert, arith,
}
use mathlib.Core.List.{append-nil, append_assoc}
use laplace.Event.{ProbeEvent, task_polled, task_join_requested, task_join_resolved}
use laplace.Session.Sinks.{
  Process, local_sender, received, emit, current_thread_id, current_task_id, set_probe_thread_id,
  set_current_task_id,
}
use laplace.Session.Captures.{NoLegacy, emit-sent, received-emit}
use laplace.Projected.AsyncHooks.{emit_as}
use laplace.Projected.TaskHook.{poll_started, join_requested, join_resolved}
use laplace.Projected.Polls.{
  Inner, locks, notifies, uses_channel, broadcasts, uses_cell, spawns, asks_to_join, has_joined,
  probe_inner, probe_all, event_in,
}

module _ {J : Type 0} (tx : ℕ) where
  -- The events `es` were captured between `s` and `s'`.
  pub record Captured (es : List (ProbeEvent J)) (s s' : Process J) : Type 0 where
    pub session : NoLegacy tx s'
    pub captured : received tx s'.sent ≡ received tx s.sent ++ es

  -- The OS thread polls the task `t`.
  abbrev pub In : (os t : ℕ) → Process J → Type 0
  In os t s = (lookup os s.probe_thread_id ≡ some t) × (lookup os s.current_task ≡ some (some t))

  pub chain :
      (es fs : List (ProbeEvent J)) (s s' s'' : Process J)
      → Captured es s s'
      → Captured fs s' s''
      → Captured (es ++ fs) s s''
  chain es fs s s' s'' a b = record {
    session = b.session;
    captured = b.captured ∙ ap (λ z. z ++ fs) a.captured ∙ append_assoc (received tx s.sent) es fs;
  }

  pub emit-Captured :
      (os : ℕ) (e : ProbeEvent J) (s : Process J)
      → NoLegacy tx s
      → Captured (e ∷ []) s (emit os e s)
  emit-Captured os e s l =
      let (session, more) = received-emit os tx e s l in
      record { session = session; captured = more }

  emit-In :
      (os t : ℕ) (e : ProbeEvent J) (s : Process J)
      → NoLegacy tx s
      → In os t s
      → In os t (emit os e s)
  emit-In os t e s l k = rw (emit-sent os tx e s l) k

  current_thread_id-In : (os t : ℕ) (s : Process J) → In os t s → current_thread_id os s ≡ (s, t)
  unfolding current_thread_id
  current_thread_id-In os t s (id, _) = rw (id, current_thread_id) refl

  current_task_id-In : (os t : ℕ) (s : Process J) → In os t s → current_task_id os s ≡ some t
  unfolding current_task_id
  current_task_id-In os t s (_, task) = rw (task, current_task_id) refl

  emit_as-emit :
      (os t : ℕ) (e : ℕ → ProbeEvent J) (s : Process J)
      → In os t s
      → emit_as os e s ≡ emit os (e t) s
  unfolding emit_as
  emit_as-emit os t e s k = rw (current_thread_id-In os t s k) refl

  joins-In :
      (os t joined : ℕ) (s : Process J)
      → In os t s
      → (join_requested os joined s ≡ emit os (task_join_requested t joined) s)
        × (join_resolved os joined s ≡ emit os (task_join_resolved t joined) s)
  unfolding join_requested join_resolved
  joins-In os t joined s k =
      rw (current_task_id-In os t s k, join_requested, join_resolved) (refl, refl)

  probe_inner-emit :
      (os t : ℕ) (i : Inner) (s : Process J)
      → In os t s
      → probe_inner os i s ≡ emit os (event_in t i) s
  unfolding probe_inner
  probe_inner-emit os t (locks c) s k = emit_as-emit os t _ s k
  probe_inner-emit os t (notifies c) s k = emit_as-emit os t _ s k
  probe_inner-emit os t (uses_channel c) s k = emit_as-emit os t _ s k
  probe_inner-emit os t (broadcasts c) s k = emit_as-emit os t _ s k
  probe_inner-emit os t (uses_cell c) s k = emit_as-emit os t _ s k
  probe_inner-emit os t (spawns task) s k = rw (current_task_id-In os t s k) refl
  probe_inner-emit os t (asks_to_join joined) s k = (joins-In os t joined s k).0
  probe_inner-emit os t (has_joined joined) s k = (joins-In os t joined s k).1

  pub probe_all-Captured :
      (os t : ℕ) (is : List Inner) (s : Process J)
      → NoLegacy tx s
      → In os t s
      → Captured (map (event_in t) is) s (probe_all os is s) × In os t (probe_all os is s)
  unfolding probe_all
  probe_all-Captured os t [] s l k =
      (record { session = l; captured = sym (append-nil (received tx s.sent)) }, k)
  probe_all-Captured os t (i ∷ is) s l k =
      let same = probe_inner-emit os t i s k in
      let one = emit-Captured os (event_in t i) s l in
      let (rest, k') =
        probe_all-Captured os t is (emit os (event_in t i) s) one.session
          (emit-In os t (event_in t i) s l k) in
      subst
        (λ z.
          Captured (map (event_in t) (i ∷ is)) s (probe_all os is z) × In os t (probe_all os is z))
        (sym same)
        (
          chain (event_in t i ∷ []) (map (event_in t) is) s (emit os (event_in t i) s) _ one rest,
          k',
        )

  -- A change of what the sinks do not read.
  pub unread :
      (s : Process J) (ids : List (ℕ × ℕ)) (tasks : List (ℕ × Option ℕ))
      → NoLegacy tx s
      → Captured [] s (record s { probe_thread_id = ids; current_task = tasks })
  unfolding local_sender
  unread s ids tasks l = record {
    session = record { no_local = l.no_local; no_global = l.no_global; session = l.session };
    captured = sym (append-nil (received tx s.sent));
  }

  pub poll_started-Captured :
      (os t attempt : ℕ) (s : Process J)
      → NoLegacy tx s
      → Captured (task_polled t attempt ∷ []) s (poll_started os t attempt s)
        × In os t (poll_started os t attempt s)
  unfolding poll_started set_probe_thread_id set_current_task_id
  poll_started-Captured os t attempt s l =
      let ids = insert os t s.probe_thread_id in
      let tasks = insert os (some t) s.current_task in
      let set : Process J = record s { probe_thread_id = ids; current_task = tasks } in
      let quiet = unread s ids tasks l in
      let on : In os t set = (
        lookup-insert os os t s.probe_thread_id ∙ ground arith,
        lookup-insert os os (some t) s.current_task ∙ ground arith,
      ) in
      (
        chain [] (task_polled t attempt ∷ []) s set _ quiet
            (emit-Captured os (task_polled t attempt) set quiet.session),
        emit-In os t (task_polled t attempt) set quiet.session on,
      )
