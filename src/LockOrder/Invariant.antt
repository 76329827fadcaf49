-- ===== src/LockOrder/Invariant.antt =====
-- What the verifier's collections are after any history that it has not reported on.
use laplace.Prelude.{
  ℕ, String, ◌≡◌, ◌∙◌, ◌≢◌, ◌⊎◌, inl, inr, true, false, List, [], ◌∷◌, Elem, subst, sym, lookup,
  arith, some,
}
use laplace.Event.{ProbeEvent}
use laplace.LockOrder.Edges.{HoldMode, Hold, Edge, cycle, go, any_closes, insert_edge, record_edges}
use laplace.LockOrder.Tracker.{Boundary, boundary, Tracker, new_tracker, held_of}
use laplace.LockOrder.Trace.{Ordered, Inverts, Inversion}
use laplace.LockOrder.Holding.{hold, Tracks, boundary-acquire}
use laplace.LockOrder.Recording.{
  edge, any_closes_of, of_any_closes, insert_edge-Elem, record_edges-keeps, record_edges-cycle,
  record_edges-old, record_edges-new,
}

abbrev pub Sound : {J : Type 0} → List (ProbeEvent J) → List Edge → Type 0
Sound h es = (x : Edge) → Elem x es → (t : ℕ) × Ordered h t x

abbrev pub Complete : {J : Type 0} → List (ProbeEvent J) → List Edge → Type 0
Complete h es = (t : ℕ) (x : Edge) → Ordered h t x → Elem x es

-- No two of the edges invert one another.
abbrev pub Peaceful : List Edge → Type 0
Peaceful es = (x y : Edge) → Elem x es → Elem y es → ¬ Inverts x y

Inverts-symm : {x y : Edge} → Inverts x y → Inverts y x
Inverts-symm i = record {
  there = i.back;
  back = i.there;
  blocks_there = i.blocks_back;
  blocks_back = i.blocks_there;
}

insert_edge-Peaceful :
    (g : Hold) (r : String) (m : HoldMode) (fs : List Edge)
    → g.resource ≢ r
    → any_closes r m g.resource g.mode fs ≡ false
    → Peaceful fs
    → Peaceful (insert_edge (edge g r m) fs)
insert_edge-Peaceful g r m fs other miss quiet x y ex ey i =
    cases ((insert_edge-Elem x a fs).0 ex) ((insert_edge-Elem y a fs).0 ey)
  where
    a : Edge
    a = edge g r m

    apart : (f : Edge) → Elem f fs → ¬ Inverts a f
    apart f e j = cc (any_closes_of g r m f fs e j)

    cases : Elem x fs ⊎ (x ≡ a) → Elem y fs ⊎ (y ≡ a) → ⊥
    cases (inl p) (inl q) = quiet x y p q i
    cases (inl p) (inr q) = apart x p (Inverts-symm (subst (λ z. Inverts x z) q i))
    cases (inr p) (inl q) = apart y q (subst (λ z. Inverts z y) p i)
    cases (inr p) (inr q) = other (cc (i.there))

pub record Inv {J : Type 0} (h : List (ProbeEvent J)) (tr : Tracker) : Type 0 where
  pub tracks : Tracks h tr.held_by_thread
  pub sound : Sound h tr.order_edges
  pub complete : Complete h tr.order_edges
  pub peaceful : Peaceful tr.order_edges

pub new_tracker-Inv : {J : Type 0} → Inv {J = J} [] new_tracker
unfolding held_of lookup
new_tracker-Inv = record {
  tracks = λ t r m. (λ e. e, λ e. e);
  sound = λ x e. absurd e;
  complete = λ t x e. e;
  peaceful = λ x y e. absurd e;
}

module _ {J : Type 0} (e : ProbeEvent J) (h : List (ProbeEvent J)) (tr : Tracker) (inv : Inv h tr)
    (b : Boundary) (eq : boundary e ≡ some b) (a : b.is_acquire ≡ true) where
  earlier : Sound (e ∷ h) tr.order_edges
  earlier x p = let (t, o) = inv.sound x p in (t, inr o)

  made :
      (g : Hold)
      → Elem g (held_of b.thread_id tr.held_by_thread)
      → g.resource ≢ b.resource
      → Ordered (e ∷ h) b.thread_id (edge g b.resource b.mode)
  made g p other = inl (
      ground (
        arith,
        boundary-acquire e b b.thread_id b.resource b.mode eq a,
        inv.tracks b.thread_id g.resource g.mode,
      ))

  -- While the inner loop runs, each edge comes from the history or from this acquisition.
  insert_edge-Sound :
      (g : Hold) (fs : List Edge)
      → Elem g (held_of b.thread_id tr.held_by_thread)
      → g.resource ≢ b.resource
      → Sound (e ∷ h) fs
      → Sound (e ∷ h) (insert_edge (edge g b.resource b.mode) fs)
  insert_edge-Sound g fs p other s x ex =
      elim ((insert_edge-Elem x (edge g b.resource b.mode) fs).0 ex) [
        | inl old ↦ s x old
        | inr new ↦
            subst (λ z. (t : ℕ) × Ordered (e ∷ h) t z) (sym new) (b.thread_id, made g p other)
      ]

  pub acquire-Complete :
      {es : List Edge}
      → record_edges b.resource b.mode (held_of b.thread_id tr.held_by_thread) tr.order_edges
        ≡ go es
      → Complete (e ∷ h) es
  acquire-Complete {es} rec t x o = elim o [
    | inr old ↦
        record_edges-old b.resource b.mode x (held_of b.thread_id tr.held_by_thread) tr.order_edges
          (inv.complete t x old) rec
    | inl (takes, holds, ne) ↦
        let fits = (boundary-acquire e b t x.acquired x.acquired_mode eq a).0.0 takes in
        let own : Elem (hold x.held x.held_mode) (held_of b.thread_id tr.held_by_thread) =
          rw (fits.0) ((inv.tracks t x.held x.held_mode).1 holds) in
        let made : Elem (edge (hold x.held x.held_mode) b.resource b.mode) es =
          record_edges-new b.resource b.mode (hold x.held x.held_mode)
            (held_of b.thread_id tr.held_by_thread) tr.order_edges own (λ q. ne (q ∙ fits.1)) rec in
        subst (λ z. Elem z es) (ground arith) made
  ]

  pub acquire-Sound :
      {es : List Edge}
      → record_edges b.resource b.mode (held_of b.thread_id tr.held_by_thread) tr.order_edges
        ≡ go es
      → Sound (e ∷ h) es
  acquire-Sound =
      record_edges-keeps b.resource b.mode (Sound (e ∷ h)) (held_of b.thread_id tr.held_by_thread)
        tr.order_edges (λ g fs p o _. insert_edge-Sound g fs p o) earlier

  pub acquire-Peaceful :
      {es : List Edge}
      → record_edges b.resource b.mode (held_of b.thread_id tr.held_by_thread) tr.order_edges
        ≡ go es
      → Peaceful es
  acquire-Peaceful =
      record_edges-keeps b.resource b.mode Peaceful (held_of b.thread_id tr.held_by_thread)
        tr.order_edges (λ g fs _. insert_edge-Peaceful g b.resource b.mode fs) inv.peaceful

  pub acquire-Inversion :
      (p q : String)
      → record_edges b.resource b.mode (held_of b.thread_id tr.held_by_thread) tr.order_edges
        ≡ cycle p q
      → (i : Inversion (e ∷ h)) × (p ≡ i.first.held) × (q ≡ i.first.acquired)
  acquire-Inversion p q rec =
      let s =
        record_edges-cycle b.resource b.mode (Sound (e ∷ h)) (held_of b.thread_id tr.held_by_thread)
          tr.order_edges p q (λ g fs i o _. insert_edge-Sound g fs i o) earlier rec in
      let (f, ef, i) = of_any_closes s.hold b.resource b.mode s.edges s.hit in
      let (u, of) = s.kept f ef in
      (
        record {
          first_thread = b.thread_id;
          second_thread = u;
          first = edge s.hold b.resource b.mode;
          second = f;
          first_ordered = made s.hold s.among s.other;
          second_ordered = of;
          inverts = i;
        },
        s.prior_is,
        s.resource_is,
      )
