-- ===== src/LockOrder/Steps.antt =====
-- The invariant over one event and over a whole list of events.
use laplace.Prelude.{
  ℕ, String, ◌≡◌, refl, sym, subst, ◌⊎◌, Option, insert, inl, inr, true, false, Bool-cases,
  Option-cases, none, some, List, ◌∷◌, lookup, Elem, arith,
}
use laplace.Event.{ProbeEvent}
use laplace.LockOrder.Edges.{HoldMode, Hold, Edge, Outcome, cycle, go, record_edges}
use laplace.LockOrder.Tracker.{
  Boundary, boundary, Tracker, step, step_at, acquire, release, held_of, push_hold,
}
use laplace.LockOrder.Trace.{Takes, Inversion}
use laplace.LockOrder.Holding.{
  Tracks, boundary-none, boundary-release, Tracks-other, Tracks-acquire, Tracks-release,
  Tracks-release_missing, held_of-some,
}
use laplace.LockOrder.Invariant.{
  Inv, acquire-Sound, acquire-Complete, acquire-Peaceful, acquire-Inversion,
}

pub Outcome-cases :
    {A : Type 0} (o : Outcome A)
    → ((p : String) × (q : String) × (o ≡ cycle p q)) ⊎ ((a : A) × (o ≡ go a))
Outcome-cases (cycle p q) = inl (p, q, refl)
Outcome-cases (go a) = inr (a, refl)

module _ {J : Type 0} (e : ProbeEvent J) (h : List (ProbeEvent J)) (tr : Tracker)
    (inv : Inv h tr) where
  -- An event that is no acquisition adds no order.
  still-Inv :
      (tr' : Tracker)
      → ((t : ℕ) (r : String) (m : HoldMode) → ¬ Takes e t r m)
      → Tracks (e ∷ h) tr'.held_by_thread
      → tr'.order_edges ≡ tr.order_edges
      → Inv (e ∷ h) tr'
  still-Inv tr' quiet tracks same = record {
    tracks = tracks;
    sound = λ x p. let (t, o) = inv.sound x (subst (Elem x) same p) in (t, inr o);
    complete = λ t x o. elim o [
      | inl (takes, _, _) ↦ absurd (quiet t x.acquired x.acquired_mode takes)
      | inr old ↦ subst (Elem x) (sym same) (inv.complete t x old)
    ];
    peaceful = λ x y p q. inv.peaceful x y (subst (Elem x) same p) (subst (Elem y) same q);
  }

  acquire-Inv :
      (b : Boundary) (tr' : Tracker)
      → boundary e ≡ some b
      → b.is_acquire ≡ true
      → acquire tr b.thread_id b.resource b.mode ≡ go tr'
      → Inv (e ∷ h) tr'
  unfolding acquire
  acquire-Inv b tr' eq a s =
      elim (Outcome-cases (record_edges b.resource b.mode hs tr.order_edges)) [
        | inl (p, q, c) ↦ absurd (ground arith)
        | inr (es, g) ↦ subst (Inv (e ∷ h)) (ground arith) (after es g)
      ]
    where
      hs : List Hold
      hs = held_of b.thread_id tr.held_by_thread

      after :
          (es : List Edge)
          → record_edges b.resource b.mode hs tr.order_edges ≡ go es
          → Inv (e ∷ h) (record {
            held_by_thread = insert b.thread_id (push_hold b.resource b.mode hs) tr.held_by_thread;
            order_edges = es;
          })
      after es g = record {
        tracks = Tracks-acquire e h tr.held_by_thread b eq a inv.tracks;
        sound = acquire-Sound e h tr inv b eq a g;
        complete = acquire-Complete e h tr inv b eq a g;
        peaceful = acquire-Peaceful e h tr inv b eq a g;
      }

  release-Inv :
      (b : Boundary)
      → boundary e ≡ some b
      → b.is_acquire ≡ false
      → Inv (e ∷ h) (release tr b.thread_id b.resource)
  unfolding release
  release-Inv b eq a = elim (Option-cases (lookup b.thread_id tr.held_by_thread)) [
    | inl missing ↦
        rw (missing, release)
          (still-Inv tr quiet
            (Tracks-release_missing e h tr.held_by_thread b eq a missing inv.tracks) refl)
    | inr (hs, found) ↦
        rw (found, release)
          (still-Inv _ quiet
            (rw (held_of-some b.thread_id tr.held_by_thread hs found) at
              (Tracks-release e h tr.held_by_thread b eq a inv.tracks))
            refl)
  ]
    where
      quiet : (t : ℕ) (r : String) (m : HoldMode) → ¬ Takes e t r m
      quiet t r m = (boundary-release e b t r m eq a).1

  step_at-Inv :
      (o : Option Boundary) (tr' : Tracker)
      → boundary e ≡ o
      → step_at tr o ≡ go tr'
      → Inv (e ∷ h) tr'
  unfolding step_at
  step_at-Inv none tr' eq s = subst (Inv (e ∷ h)) (ground arith) (
      still-Inv tr (λ t r m. (boundary-none e t r m eq).0)
        (Tracks-other e h tr.held_by_thread eq inv.tracks) refl)
  step_at-Inv (some b) tr' eq s = elim (Bool-cases b.is_acquire) [
    | inl a ↦ acquire-Inv b tr' eq a (ground arith)
    | inr a ↦ subst (Inv (e ∷ h)) (ground arith) (release-Inv b eq a)
  ]

  pub step-Inv : (tr' : Tracker) → step tr e ≡ go tr' → Inv (e ∷ h) tr'
  unfolding step
  step-Inv tr' = step_at-Inv (boundary e) tr' refl

  step_at-Inversion :
      (o : Option Boundary) (p q : String)
      → boundary e ≡ o
      → step_at tr o ≡ cycle p q
      → (i : Inversion (e ∷ h)) × (p ≡ i.first.held) × (q ≡ i.first.acquired)
  unfolding step_at acquire
  step_at-Inversion none p q eq s = absurd (ground arith)
  step_at-Inversion (some b) p q eq s = elim (Bool-cases b.is_acquire) [
    | inr a ↦ absurd (ground arith)
    | inl a ↦ acquire-Inversion e h tr inv b eq a p q (ground arith)
  ]

  pub step-Inversion :
      (p q : String)
      → step tr e ≡ cycle p q
      → (i : Inversion (e ∷ h)) × (p ≡ i.first.held) × (q ≡ i.first.acquired)
  unfolding step
  step-Inversion p q = step_at-Inversion (boundary e) p q refl
