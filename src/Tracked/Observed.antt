-- ===== src/Tracked/Observed.antt =====
-- How the captured events and the numbers of holds change with one event or one hold.
use laplace.Prelude.{
  count, one, ℕ, ◌+◌, ◌≤◌, ◌≡◌, inl, inr, refl, String, Bool, true, ◌&&◌, some, List, lookup,
  if◌then◌else◌, Option-cases, arith,
}
use laplace.LockOrder.Edges.{HoldMode, exclusive, shared, mode_eq}
use laplace.Session.Sinks.{Process, local_sender, received, current_thread_id}
use laplace.Session.Captures.{NoLegacy}
use laplace.Tracked.Threads.{Hold, really, World}
use laplace.Tracked.Counting.{enter, leave, observe_all, seen, Excluded}

-- The numbers of holds, and of those reported, of the one resource.
abbrev pub counted : (HoldMode → String → Hold → Bool) → String → List Hold → ℕ × ℕ
counted f r hs = (count (f exclusive r) hs, count (f shared r) hs)

module _ {J : Type 0} where
  -- What was captured so far can be observed, and the observer counts the reported holds.
  pub record Shared (tx : ℕ) (r : String) (w : World J) : Type 0 where
    pub excluded : Excluded (count (really exclusive r) w.holds) (count (really shared r) w.holds)
    pub session : NoLegacy tx w.process
    pub observed : observe_all r (received tx w.process.sent) (0, 0) ≡ some (counted seen r w.holds)

  pub current_thread_id-NoLegacy :
      (os tx : ℕ) (s : Process J)
      → NoLegacy tx s
      → NoLegacy tx (current_thread_id os s).0 × ((current_thread_id os s).0.sent ≡ s.sent)
  unfolding current_thread_id local_sender
  current_thread_id-NoLegacy os tx s l = elim (Option-cases (lookup os s.probe_thread_id)) [
    | inl new ↦
        rw (new, current_thread_id)
          (record { no_local = l.no_local; no_global = l.no_global; session = l.session }, refl)
    | inr (id, old) ↦ rw (old, current_thread_id) (l, refl)
  ]

-- How the numbers of real and of reported holds change.
module _ (m : HoldMode) (b : Bool) where
  -- A wrapped guard comes.
  pub gets_lem :
      (writing reading writing' reading' : ℕ)
      → Excluded writing reading
      → (m ≡ exclusive → b ≡ true → (writing ≡ 0) × (reading ≡ 0))
      → (m ≡ shared → b ≡ true → writing ≡ 0)
      → writing' ≡ writing + one (mode_eq m exclusive && b)
      → reading' ≡ reading + one (mode_eq m shared && b)
      → Excluded writing' reading'
  gets_lem w r w' r' ex write read a c = ground arith

  -- A hold with a wrapped guard is reported, and it is one of the real ones.
  pub reports_lem :
      (writing reading w r w' r' : ℕ)
      → Excluded writing reading
      → w' ≤ writing
      → r' ≤ reading
      → w' ≡ w + one (mode_eq m exclusive && b)
      → r' ≡ r + one (mode_eq m shared && b)
      → (if b then enter m (w, r) else some (w, r)) ≡ some (w', r')
  unfolding enter
  reports_lem writing reading w r w' r' ex lw lr a c = ground arith

  pub announces_lem :
      (w r w' r' : ℕ)
      → w ≡ w' + one (mode_eq m exclusive && b)
      → r ≡ r' + one (mode_eq m shared && b)
      → (if b then leave m (w, r) else some (w, r)) ≡ some (w', r')
  unfolding leave
  announces_lem w r w' r' a c = ground arith
