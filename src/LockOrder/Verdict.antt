-- ===== src/LockOrder/Verdict.antt =====
-- The verdict of `run_verification_from` against the meaning of the events.
use laplace.Prelude.{String, str_append, ◌≡◌, ◌↔◌, inl, inr, List, [], arith}
use laplace.Event.{ProbeEvent}
use laplace.LockOrder.Tracker.{new_tracker, scan}
use laplace.LockOrder.Verify.{ProbeSessionConfig, clean, bug_found, run_verification_from, render}
use laplace.LockOrder.Trace.{Inversion, history}
use laplace.LockOrder.Nesting.{NotNested, RealInversion, RealInversion-Inversion}
use laplace.LockOrder.Invariant.{Inv, new_tracker-Inv}
use laplace.LockOrder.Steps.{Outcome-cases}
use laplace.LockOrder.Scans.{scan-Inversion, scan-Inv}

module _ {J : Type 0} (events : List (ProbeEvent J)) (target_name : String)
    (config : ProbeSessionConfig) where
  -- A bug that the verifier reports is real: the events hold two acquisitions in opposite orders
  -- whose modes block one another, and the description names the target and the two resources of
  -- one of them.
  pub bug_found-Inversion :
      {d : String}
      → (run_verification_from events target_name config).verdict ≡ bug_found d
      → (i : Inversion (history events [])) × (d
          ≡ str_append target_name
              (str_append ": lock-order cycle " (render i.first.held i.first.acquired)))
  unfolding run_verification_from
  bug_found-Inversion {d} v = elim (Outcome-cases (scan new_tracker events)) [
    | inl (p, q, c) ↦
        let (i, ip, iq) = scan-Inversion events [] new_tracker p q new_tracker-Inv c in
        (i, ground arith)
    | inr (tr, g) ↦ absurd (ground arith)
  ]

  opposed-bug_found :
      Inversion (history events [])
      → (d : String) × ((run_verification_from events target_name config).verdict ≡ bug_found d)
  unfolding run_verification_from
  opposed-bug_found i = elim (Outcome-cases (scan new_tracker events)) [
    | inl (p, q, c) ↦
        (str_append target_name (str_append ": lock-order cycle " (render p q)), ground arith)
    | inr (tr, g) ↦
        let inv : Inv (history events []) tr =
          scan-Inv events [] new_tracker tr new_tracker-Inv g in
        absurd (
          inv.peaceful i.first i.second (inv.complete i.first_thread i.first i.first_ordered)
            (inv.complete i.second_thread i.second i.second_ordered) i.inverts)
  ]

  pub clean-of_no_Inversion :
      (Inversion (history events []) → ⊥)
      → (run_verification_from events target_name config).verdict ≡ clean
  unfolding run_verification_from
  clean-of_no_Inversion none_there = elim (Outcome-cases (scan new_tracker events)) [
    | inl (p, q, c) ↦
        absurd (none_there (scan-Inversion events [] new_tracker p q new_tracker-Inv c).0)
    | inr (tr, g) ↦ ground arith
  ]

  -- Where no thread takes a resource that it still holds, the verifier reports a bug exactly if the
  -- events hold two acquisitions in opposite orders, by one thread or two, whose modes block one
  -- another, each made while its thread really held the other resource: each acquisition is a hold,
  -- which the thread's next release of the resource ends.
  pub RealInversion-bug_found :
      NotNested (history events [])
      → RealInversion (history events [])
        ↔ ((d : String) × ((run_verification_from events target_name config).verdict ≡ bug_found d))
  RealInversion-bug_found k = (
    (λ i. opposed-bug_found ((RealInversion-Inversion (history events []) k).0 i)),
    (λ (d, found). (RealInversion-Inversion (history events []) k).1 (bug_found-Inversion found).0),
  )
