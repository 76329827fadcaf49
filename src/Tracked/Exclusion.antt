-- ===== src/Tracked/Exclusion.antt =====
-- The captured events never show two holders of one lock.
use laplace.Prelude.{
  count, at, set, one, count-set, count-append, ℕ, ◌+◌, ◌≤◌, ◌≡◌, ◌∙◌, inl, inr, refl, sym, String,
  str_eq, eq_iff, Bool, true, false, Bool-cases, Option, none, some, List, arith,
}
use laplace.LockOrder.Edges.{HoldMode, exclusive, shared}
use laplace.Session.Sinks.{received, current_thread_id}
use laplace.Tracked.Locks.{Guard}
use laplace.Tracked.Threads.{
  Way, mode_of, Phase, asking, taken, reported, leaving, gone, Hold, is_reported, really, is_free,
  World, Step, asks, gets, reports, announces, frees, panics, take_on, with_hold, take_step,
  acquired_event, released_event, report_hold_lem, announce_hold_lem,
}
use laplace.Tracked.Counting.{observe_all-append, observe_events, seen, seen-really, Excluded}
use laplace.Session.Captures.{received-emit}
use laplace.Tracked.Observed.{
  Shared, counted, current_thread_id-NoLegacy, gets_lem, reports_lem, announces_lem,
}

free_lem :
    (m : HoldMode) (name r : String) (hs : List Hold)
    → is_free m name hs ≡ true
    → (m ≡ exclusive
        → str_eq name r ≡ true
        → (count (really exclusive r) hs ≡ 0) × (count (really shared r) hs ≡ 0))
      × (m ≡ shared → str_eq name r ≡ true → count (really exclusive r) hs ≡ 0)
free_lem exclusive name r hs free =
    (λ _ same. rw (sym ((eq_iff name r).0 same)) (ground arith), λ m _. absurd (ground arith))
free_lem shared name r hs free =
    (λ m _. absurd (ground arith), λ _ same. rw (sym ((eq_iff name r).0 same)) (ground arith))

module _ {J : Type 0} (tx : ℕ) (r : String) (w : World J) (k : Shared tx r w) where
  abbrev hold : Way → Guard → Phase → Hold
  hold way guard phase = record { way = way; guard = guard; phase = phase }

  -- The number of holds after one is put in another phase.
  counts :
      (f : HoldMode → String → Hold → Bool) (m : HoldMode) (i : ℕ) (way : Way) (guard : Guard)
      (p q : Phase)
      → at i w.holds ≡ some (hold way guard p)
      → count (f m r) (set i (hold way guard q) w.holds) + one (f m r (hold way guard p))
        ≡ count (f m r) w.holds + one (f m r (hold way guard q))
  counts f m i way guard p q found =
      count-set (f m r) i (hold way guard p) (hold way guard q) w.holds found

  -- A phase that changes no event.
  quiet :
      (i : ℕ) (way : Way) (guard : Guard) (p q : Phase)
      → at i w.holds ≡ some (hold way guard p)
      → is_reported p ≡ false
      → is_reported q ≡ false
      → (let hs = set i (hold way guard q) w.holds in
          Excluded (count (really exclusive r) hs) (count (really shared r) hs))
      → Shared tx r (record w { holds = set i (hold way guard q) w.holds })
  quiet i way guard p q found unseen_p unseen_q excluded = record {
    excluded = excluded;
    session = k.session;
    observed = rw (same exclusive, same shared) k.observed;
  }
    where
      same :
          (m : HoldMode)
          → count (seen m r) (set i (hold way guard q) w.holds) ≡ count (seen m r) w.holds
      same m = ground (arith, unseen_p, unseen_q, counts seen m i way guard p q found)

  -- Fewer real holds.
  fewer :
      (writing reading : ℕ)
      → writing ≤ count (really exclusive r) w.holds
      → reading ≤ count (really shared r) w.holds
      → Excluded writing reading
  fewer writing reading a b = ground (arith, k.excluded)

  pub gets-Shared :
      (i : ℕ) (way : Way) (guard : Guard) (p : Phase)
      → at i w.holds ≡ some (hold way guard p)
      → Shared tx r (take_on (gets i) (hold way guard p) w)
  unfolding take_on
  gets-Shared i way guard asking found =
      elim (Bool-cases (is_free (mode_of way) guard.resource_name w.holds)) [
        | inr busy ↦ rw busy k
        | inl free ↦
            let (to_write, to_read) = free_lem (mode_of way) guard.resource_name r w.holds free in
            rw free (
              quiet i way guard asking taken found refl refl (
                gets_lem (mode_of way) (str_eq guard.resource_name r) _ _ _ _ k.excluded to_write
                  to_read (omega (arith, counts really exclusive i way guard asking taken found))
                  (omega (arith, counts really shared i way guard asking taken found))))
      ]
  gets-Shared i way guard taken found = k
  gets-Shared i way guard reported found = k
  gets-Shared i way guard leaving found = k
  gets-Shared i way guard gone found = k

  pub frees-Shared :
      (i : ℕ) (way : Way) (guard : Guard) (p : Phase)
      → at i w.holds ≡ some (hold way guard p)
      → Shared tx r (take_on (frees i) (hold way guard p) w)
        × Shared tx r (take_on (panics i) (hold way guard p) w)
  unfolding take_on
  frees-Shared i way guard leaving found = (
    quiet i way guard leaving gone found refl refl (
        fewer _ _ (omega (arith, counts really exclusive i way guard leaving gone found))
          (omega (arith, counts really shared i way guard leaving gone found))),
    k,
  )
  frees-Shared i way guard taken found = (
    k,
    quiet i way guard taken gone found refl refl (
        fewer _ _ (omega (arith, counts really exclusive i way guard taken gone found))
          (omega (arith, counts really shared i way guard taken gone found))),
  )
  frees-Shared i way guard asking found = (k, k)
  frees-Shared i way guard reported found = (k, k)
  frees-Shared i way guard gone found = (k, k)

  pub reports-Shared :
      (os i : ℕ) (way : Way) (guard : Guard) (p : Phase)
      → at i w.holds ≡ some (hold way guard p)
      → Shared tx r (take_on (reports os i) (hold way guard p) w)
  unfolding take_on
  reports-Shared os i way guard taken found =
      let hs = set i (hold way guard reported) w.holds in
      let e = acquired_event way guard.thread_id guard.resource_name in
      let (session, more) = received-emit os tx e w.process k.session in
      let really_same : (m : HoldMode) → count (really m r) hs ≡ count (really m r) w.holds =
        λ m. omega (arith, counts really m i way guard taken reported found) in
      record {
        excluded = rw (really_same exclusive, really_same shared) k.excluded;
        session = rw (report_hold_lem way os guard.thread_id guard.resource_name w.process) session;
        observed =
            rw (report_hold_lem way os guard.thread_id guard.resource_name w.process, more)
              (observe_all-append r (received tx w.process.sent) e (0, 0) (counted seen r w.holds)
                  k.observed
                ∙ (observe_events J r guard.resource_name way guard.thread_id
                    (counted seen r w.holds)).0
                ∙ reports_lem (mode_of way) (str_eq guard.resource_name r)
                    (count (really exclusive r) w.holds) (count (really shared r) w.holds) _ _
                    (count (seen exclusive r) hs) (count (seen shared r) hs) k.excluded
                    (omega (arith, seen-really exclusive r hs, really_same exclusive))
                    (omega (arith, seen-really shared r hs, really_same shared))
                    (omega (arith, counts seen exclusive i way guard taken reported found))
                    (omega (arith, counts seen shared i way guard taken reported found)));
      }
  reports-Shared os i way guard asking found = k
  reports-Shared os i way guard reported found = k
  reports-Shared os i way guard leaving found = k
  reports-Shared os i way guard gone found = k

  pub announces-Shared :
      (os i : ℕ) (way : Way) (guard : Guard) (p : Phase)
      → at i w.holds ≡ some (hold way guard p)
      → Shared tx r (take_on (announces os i) (hold way guard p) w)
  unfolding take_on
  announces-Shared os i way guard reported found =
      let hs = set i (hold way guard leaving) w.holds in
      let e = released_event way guard.thread_id guard.resource_name in
      let (session, more) = received-emit os tx e w.process k.session in
      let really_same : (m : HoldMode) → count (really m r) hs ≡ count (really m r) w.holds =
        λ m. omega (arith, counts really m i way guard reported leaving found) in
      record {
        excluded = rw (really_same exclusive, really_same shared) k.excluded;
        session = rw (announce_hold_lem way os guard w.process) session;
        observed =
            rw (announce_hold_lem way os guard w.process, more)
              (observe_all-append r (received tx w.process.sent) e (0, 0) (counted seen r w.holds)
                  k.observed
                ∙ (observe_events J r guard.resource_name way guard.thread_id
                    (counted seen r w.holds)).1
                ∙ announces_lem (mode_of way) (str_eq guard.resource_name r) _ _
                    (count (seen exclusive r) hs) (count (seen shared r) hs)
                    (omega (arith, counts seen exclusive i way guard reported leaving found))
                    (omega (arith, counts seen shared i way guard reported leaving found)));
      }
  announces-Shared os i way guard asking found = k
  announces-Shared os i way guard taken found = k
  announces-Shared os i way guard leaving found = k
  announces-Shared os i way guard gone found = k

  pub asks-Shared :
      (os : ℕ) (way : Way) (name : String) → Shared tx r (take_step (asks os way name) w)
  unfolding take_step
  asks-Shared os way name =
      let (session, same) = current_thread_id-NoLegacy os tx w.process k.session in
      let new : Hold = record {
        way = way;
        guard = record { resource_name = name; thread_id = (current_thread_id os w.process).1 };
        phase = asking;
      } in
      record {
        excluded =
            rw
              (
                count-append (really exclusive r) w.holds new,
                count-append (really shared r) w.holds new,
              )
              (ground (arith, k.excluded));
        session = session;
        observed =
            rw
              (
                same,
                count-append (seen exclusive r) w.holds new,
                count-append (seen shared r) w.holds new,
              )
              (ground (arith, k.observed));
      }

  pub with_hold-Shared :
      (i : ℕ) (s : Step)
      → ((way : Way) (guard : Guard) (p : Phase)
          → at i w.holds ≡ some (hold way guard p)
          → Shared tx r (take_on s (hold way guard p) w))
      → Shared tx r (with_hold i s w)
  with_hold-Shared i s each = go (at i w.holds) each
    where
      go :
          (o : Option Hold)
          → ((way : Way) (guard : Guard) (p : Phase)
              → o ≡ some (hold way guard p)
              → Shared tx r (take_on s (hold way guard p) w))
          → Shared tx r (elim o [ none ↦ w | some h ↦ take_on s h w ])
      go none each = k
      go (some h) each = each h.way h.guard h.phase refl
