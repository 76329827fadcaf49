-- ===== src/LockOrder/Scans.antt =====
-- The loop of the verifier over a whole list of events.
use laplace.Prelude.{String, ◌≡◌, refl, inl, inr, List, [], ◌∷◌, subst, arith}
use laplace.Event.{ProbeEvent}
use laplace.LockOrder.Edges.{cycle, go}
use laplace.LockOrder.Tracker.{Tracker, step, scan}
use laplace.LockOrder.Trace.{Inversion, history}
use laplace.LockOrder.Invariant.{Inv}
use laplace.LockOrder.Steps.{Outcome-cases, step-Inv, step-Inversion}

module _ {J : Type 0} where
  -- What a history showed, a longer one shows.
  Inversion-later :
      (es h : List (ProbeEvent J)) (i : Inversion h)
      → (j : Inversion (history es h)) × (i.first ≡ j.first)
  Inversion-later [] h i = (i, refl)
  Inversion-later (e ∷ es) h i = Inversion-later es (e ∷ h) (record {
    first_thread = i.first_thread;
    second_thread = i.second_thread;
    first = i.first;
    second = i.second;
    first_ordered = inr i.first_ordered;
    second_ordered = inr i.second_ordered;
    inverts = i.inverts;
  })

  pub scan-Inversion :
      (es h : List (ProbeEvent J)) (tr : Tracker) (p q : String)
      → Inv h tr
      → scan tr es ≡ cycle p q
      → (i : Inversion (history es h)) × (p ≡ i.first.held) × (q ≡ i.first.acquired)
  unfolding scan
  scan-Inversion [] h tr p q inv s = absurd (ground arith)
  scan-Inversion (e ∷ es) h tr p q inv s = elim (Outcome-cases (step tr e)) [
    | inl (p', q', c) ↦
        let (i, ip, iq) = step-Inversion e h tr inv p' q' c in
        let (j, same) = Inversion-later es (e ∷ h) i in (j, ground arith, ground arith)
    | inr (tr', g) ↦ scan-Inversion es (e ∷ h) tr' p q (step-Inv e h tr inv tr' g) (ground arith)
  ]

  pub scan-Inv :
      (es h : List (ProbeEvent J)) (tr tr' : Tracker)
      → Inv h tr
      → scan tr es ≡ go tr'
      → Inv (history es h) tr'
  unfolding scan
  scan-Inv [] h tr tr' inv s = subst (Inv h) (ground arith) inv
  scan-Inv (e ∷ es) h tr tr' inv s = elim (Outcome-cases (step tr e)) [
    | inl (p, q, c) ↦ absurd (ground arith)
    | inr (t, g) ↦ scan-Inv es (e ∷ h) t tr' (step-Inv e h tr inv t g) (ground arith)
  ]
