-- ===== src/LockOrder/Nesting.antt =====
-- Who really holds what, where a lock can be taken again by its holder: an acquisition adds a hold,
-- and a release takes the newest one of its thread and resource away.
use laplace.Prelude.{
  ℕ, String, str_eq, eq_iff, ◌==◌, ◌≡◌, ◌≢◌, ◌↔◌, ◌⊎◌, inl, inr, refl, sym, subst, Bool, ◌&&◌,
  Bool-cases, List, [], ◌∷◌, Elem, if◌then◌else◌, arith,
}
use laplace.Event.{
  ProbeEvent, lock_acquired, lock_released, rw_lock_read_acquired, rw_lock_read_released,
  rw_lock_write_acquired, rw_lock_write_released,
}
use laplace.LockOrder.Edges.{HoldMode, exclusive, shared, Edge}
use laplace.LockOrder.Trace.{Takes, Drops, Holds, Ordered, Inverts, Inversion}

abbrev pub without_newest : List HoldMode → List HoldMode
without_newest [] = []
without_newest (m ∷ ms) = ms

abbrev pub is_about : (t u : ℕ) (r s : String) → Bool
is_about t u r s = (u == t) && str_eq s r

module _ {J : Type 0} where
  -- What an event does to the holds of `r` by thread `t`, of which the newest comes first.
  abbrev pub change : ℕ → String → ProbeEvent J → List HoldMode → List HoldMode
  change t r (lock_acquired u s) l = if is_about t u r s then exclusive ∷ l else l
  change t r (rw_lock_write_acquired u s) l = if is_about t u r s then exclusive ∷ l else l
  change t r (rw_lock_read_acquired u s) l = if is_about t u r s then shared ∷ l else l
  change t r (lock_released u s) l = if is_about t u r s then without_newest l else l
  change t r (rw_lock_write_released u s) l = if is_about t u r s then without_newest l else l
  change t r (rw_lock_read_released u s) l = if is_about t u r s then without_newest l else l
  change t r _ l = l

  -- The holds of `r` by thread `t` after a history.
  abbrev pub holds_after : List (ProbeEvent J) → ℕ → String → List HoldMode
  holds_after [] t r = []
  holds_after (e ∷ h) t r = change t r e (holds_after h t r)

  -- No thread takes what it still holds.
  abbrev pub NotNested : List (ProbeEvent J) → Type 0
  NotNested [] = Unit
  NotNested (e ∷ h) =
      ((t : ℕ) (r : String) (m : HoldMode) → Takes e t r m → holds_after h t r ≡ []) × NotNested h

  -- Thread `t` made the acquisition of the edge while it really held the other resource.
  abbrev pub ReallyOrdered : List (ProbeEvent J) → ℕ → Edge → Type 0
  ReallyOrdered [] t e = ⊥
  ReallyOrdered (ev ∷ h) t e =
      (Takes ev t e.acquired e.acquired_mode
        × Elem e.held_mode (holds_after h t e.held)
        × (e.held ≢ e.acquired))
      ⊎ ReallyOrdered h t e

  -- Two acquisitions in opposite orders, whose modes block one another.
  pub record RealInversion (h : List (ProbeEvent J)) : Type 0 where
    pub first_thread : ℕ
    pub second_thread : ℕ
    pub first : Edge
    pub second : Edge
    pub first_ordered : ReallyOrdered h first_thread first
    pub second_ordered : ReallyOrdered h second_thread second
    pub inverts : Inverts first second

  -- An event takes the resource, or drops it, or does neither.
  abbrev ChangeCases : ProbeEvent J → ℕ → String → List HoldMode → Type 0
  ChangeCases e t r l =
      ((m : HoldMode) × Takes e t r m
        × (change t r e l ≡ m ∷ l)
        × ¬ Drops e t r
        × ((n : HoldMode) → Takes e t r n → n ≡ m))
      ⊎ (((m : HoldMode) → ¬ Takes e t r m)
          × ((Drops e t r × (change t r e l ≡ without_newest l))
              ⊎ ((¬ Drops e t r) × (change t r e l ≡ l))))

  change_cases : (e : ProbeEvent J) (t : ℕ) (r : String) (l : List HoldMode) → ChangeCases e t r l
  change_cases (lock_acquired u s) t r l = elim (Bool-cases (is_about t u r s)) [
    | inl about ↦ inl (exclusive, ground (arith, eq_iff s r), ground arith, (λ d. d), λ n k. k.2)
    | inr other ↦ inr ((λ m k. ground (arith, eq_iff s r)), inr ((λ d. d), ground arith))
  ]
  change_cases (rw_lock_write_acquired u s) t r l = elim (Bool-cases (is_about t u r s)) [
    | inl about ↦ inl (exclusive, ground (arith, eq_iff s r), ground arith, (λ d. d), λ n k. k.2)
    | inr other ↦ inr ((λ m k. ground (arith, eq_iff s r)), inr ((λ d. d), ground arith))
  ]
  change_cases (rw_lock_read_acquired u s) t r l = elim (Bool-cases (is_about t u r s)) [
    | inl about ↦ inl (shared, ground (arith, eq_iff s r), ground arith, (λ d. d), λ n k. k.2)
    | inr other ↦ inr ((λ m k. ground (arith, eq_iff s r)), inr ((λ d. d), ground arith))
  ]
  change_cases (lock_released u s) t r l = elim (Bool-cases (is_about t u r s)) [
    | inl about ↦ inr ((λ m k. k), inl (ground (arith, eq_iff s r), ground arith))
    | inr other ↦ inr ((λ m k. k), inr ((λ d. ground (arith, eq_iff s r)), ground arith))
  ]
  change_cases (rw_lock_write_released u s) t r l = elim (Bool-cases (is_about t u r s)) [
    | inl about ↦ inr ((λ m k. k), inl (ground (arith, eq_iff s r), ground arith))
    | inr other ↦ inr ((λ m k. k), inr ((λ d. ground (arith, eq_iff s r)), ground arith))
  ]
  change_cases (rw_lock_read_released u s) t r l = elim (Bool-cases (is_about t u r s)) [
    | inl about ↦ inr ((λ m k. k), inl (ground (arith, eq_iff s r), ground arith))
    | inr other ↦ inr ((λ m k. k), inr ((λ d. ground (arith, eq_iff s r)), ground arith))
  ]
  change_cases _ t r l = inr ((λ m k. k), inr ((λ d. d), refl))

  -- At most one hold, and it is what the history shows.
  abbrev Agrees : List (ProbeEvent J) → ℕ → String → List HoldMode → Type 0
  Agrees h t r l =
      ((l ≡ []) ⊎ ((m : HoldMode) × (l ≡ m ∷ []))) × ((m : HoldMode) → Holds h t r m ↔ Elem m l)

  grown_lem :
      (e : ProbeEvent J) (h : List (ProbeEvent J)) (t : ℕ) (r : String) (m : HoldMode)
      (l l' : List HoldMode)
      → Takes e t r m
      → ((n : HoldMode) → Takes e t r n → n ≡ m)
      → l ≡ []
      → l' ≡ m ∷ l
      → ((n : HoldMode) → Holds h t r n ↔ Elem n l)
      → Agrees (e ∷ h) t r l'
  grown_lem e h t r m l l' takes only empty grown same =
      rw (grown, empty)
        (
          inr (m, refl),
          λ n. (
            (λ x. elim x [
              | inl (again, _) ↦ inl (only n again)
              | inr (old, _) ↦ absurd (subst (Elem n) empty ((same n).0 old))
            ]),
            (λ x. elim x [
              | inl here ↦ inl (
                subst (Takes e t r) (sym here) takes,
                λ k old. subst (Elem k) empty ((same k).0 old),
              )
              | inr there ↦ absurd there
            ]),
          ),
        )

  less_lem :
      (e : ProbeEvent J) (h : List (ProbeEvent J)) (t : ℕ) (r : String) (l l' : List HoldMode)
      → ((m : HoldMode) → ¬ Takes e t r m)
      → Drops e t r
      → l' ≡ without_newest l
      → (l ≡ []) ⊎ ((m : HoldMode) × (l ≡ m ∷ []))
      → Agrees (e ∷ h) t r l'
  less_lem e h t r l l' none_taken drops less single =
      let empty : l' ≡ [] = ground arith in
      rw empty (
        inl refl,
        λ n. (
          (λ x. elim x [ inl (again, _) ↦ none_taken n again | inr (_, kept) ↦ kept drops ]),
          (λ x. absurd x),
        ),
      )

  still_lem :
      (e : ProbeEvent J) (h : List (ProbeEvent J)) (t : ℕ) (r : String) (l l' : List HoldMode)
      → ((m : HoldMode) → ¬ Takes e t r m)
      → ¬ Drops e t r
      → l' ≡ l
      → Agrees h t r l
      → Agrees (e ∷ h) t r l'
  still_lem e h t r l l' none_taken kept still (single, same) = rw still (
    single,
    λ n. (
      (λ x. elim x [
        | inl (again, _) ↦ absurd (none_taken n again)
        | inr (old, _) ↦ (same n).0 old
      ]),
      (λ x. inr ((same n).1 x, kept)),
    ),
  )

  holds_after-Agrees :
      (h : List (ProbeEvent J))
      → NotNested h
      → (t : ℕ) (r : String) → Agrees h t r (holds_after h t r)
  holds_after-Agrees [] k t r = (inl refl, λ m. ((λ x. x), λ x. x))
  holds_after-Agrees (e ∷ h) k t r =
      let before = holds_after-Agrees h k.1 t r in
      let l : List HoldMode = holds_after h t r in
      elim (change_cases e t r l) [
        | inl (m, takes, grown, _, only) ↦
            grown_lem e h t r m l (change t r e l) takes only (k.0 t r m takes) grown before.1
        | inr (none_taken, inl (drops, less)) ↦
            less_lem e h t r l (change t r e l) none_taken drops less before.0
        | inr (none_taken, inr (kept, still)) ↦
            still_lem e h t r l (change t r e l) none_taken kept still before
      ]

  ReallyOrdered-Ordered :
      (h : List (ProbeEvent J)) (t : ℕ) (x : Edge)
      → NotNested h
      → ReallyOrdered h t x ↔ Ordered h t x
  ReallyOrdered-Ordered [] t x k = ((λ o. o), (λ o. o))
  ReallyOrdered-Ordered (e ∷ h) t x k =
      let held = (holds_after-Agrees h k.1 t x.held).1 x.held_mode in
      let older = ReallyOrdered-Ordered h t x k.1 in
      (
        (λ o. elim o [
          | inl (takes, real, ne) ↦ inl (takes, held.1 real, ne)
          | inr old ↦ inr (older.0 old)
        ]),
        (λ o. elim o [
          | inl (takes, shown, ne) ↦ inl (takes, held.0 shown, ne)
          | inr old ↦ inr (older.1 old)
        ]),
      )

  pub RealInversion-Inversion :
      (h : List (ProbeEvent J)) → NotNested h → RealInversion h ↔ Inversion h
  RealInversion-Inversion h k = (
    (λ i. record {
      first_thread = i.first_thread;
      second_thread = i.second_thread;
      first = i.first;
      second = i.second;
      first_ordered = (ReallyOrdered-Ordered h i.first_thread i.first k).0 i.first_ordered;
      second_ordered = (ReallyOrdered-Ordered h i.second_thread i.second k).0 i.second_ordered;
      inverts = i.inverts;
    }),
    (λ i. record {
      first_thread = i.first_thread;
      second_thread = i.second_thread;
      first = i.first;
      second = i.second;
      first_ordered = (ReallyOrdered-Ordered h i.first_thread i.first k).1 i.first_ordered;
      second_ordered = (ReallyOrdered-Ordered h i.second_thread i.second k).1 i.second_ordered;
      inverts = i.inverts;
    }),
  )
