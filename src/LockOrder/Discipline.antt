-- ===== src/LockOrder/Discipline.antt =====
-- Ways to use locks that the verifier accepts.
use laplace.Prelude.{ℕ, String, ◌≡◌, ◌≢◌, inl, inr, ◌<◌, List, [], ◌∷◌, ap, arith}
use laplace.Event.{ProbeEvent}
use laplace.LockOrder.Edges.{HoldMode, shared, Edge, modes_conflict}
use laplace.LockOrder.Verify.{ProbeSessionConfig, clean, run_verification_from}
use laplace.LockOrder.Trace.{Takes, Holds, Ordered, history}
use laplace.LockOrder.Verdict.{clean-of_no_Inversion}

module _ {J : Type 0} where
  -- Each acquisition ranks above all else that its thread holds.
  abbrev pub Ranked : (String → ℕ) → List (ProbeEvent J) → Type 0
  Ranked rank [] = Unit
  Ranked rank (e ∷ h) =
      ((t : ℕ) (r s : String) (m n : HoldMode)
        → Takes e t r m
        → Holds h t s n
        → s ≢ r
        → rank s < rank r)
      × Ranked rank h

  Ordered-rank :
      (rank : String → ℕ) (h : List (ProbeEvent J)) (t : ℕ) (x : Edge)
      → Ranked rank h
      → Ordered h t x
      → rank x.held < rank x.acquired
  Ordered-rank rank [] t x k o = absurd o
  Ordered-rank rank (e ∷ h) t x k (inl (takes, holds, ne)) =
      k.0 t x.acquired x.held x.acquired_mode x.held_mode takes holds ne
  Ordered-rank rank (e ∷ h) t x k (inr old) = Ordered-rank rank h t x k.1 old

  -- Every acquisition is a shared one.
  abbrev pub ReadsOnly : List (ProbeEvent J) → Type 0
  ReadsOnly [] = Unit
  ReadsOnly (e ∷ h) =
      ((t : ℕ) (r : String) (m : HoldMode) → Takes e t r m → m ≡ shared) × ReadsOnly h

  Holds-shared :
      (h : List (ProbeEvent J)) (t : ℕ) (r : String) (m : HoldMode)
      → ReadsOnly h
      → Holds h t r m
      → m ≡ shared
  Holds-shared [] t r m k o = absurd o
  Holds-shared (e ∷ h) t r m k (inl (takes, _)) = k.0 t r m takes
  Holds-shared (e ∷ h) t r m k (inr (old, _)) = Holds-shared h t r m k.1 old

  Ordered-shared :
      (h : List (ProbeEvent J)) (t : ℕ) (x : Edge)
      → ReadsOnly h
      → Ordered h t x
      → (x.held_mode ≡ shared) × (x.acquired_mode ≡ shared)
  Ordered-shared [] t x k o = absurd o
  Ordered-shared (e ∷ h) t x k (inl (takes, holds, ne)) =
      (Holds-shared h t x.held x.held_mode k.1 holds, k.0 t x.acquired x.acquired_mode takes)
  Ordered-shared (e ∷ h) t x k (inr old) = Ordered-shared h t x k.1 old

  module _ (events : List (ProbeEvent J)) (target_name : String) (config : ProbeSessionConfig) where
    -- Where some ranking of the resources grows along every acquisition that is made while
    -- something else is held, the verdict is clean.
    pub Ranked-clean :
        (rank : String → ℕ)
        → Ranked rank (history events [])
        → (run_verification_from events target_name config).verdict ≡ clean
    Ranked-clean rank k = clean-of_no_Inversion events target_name config (λ i. absurd (
        omega (
          arith,
          Ordered-rank rank (history events []) i.first_thread i.first k i.first_ordered,
          Ordered-rank rank (history events []) i.second_thread i.second k i.second_ordered,
          ap rank i.inverts.there,
          ap rank i.inverts.back,
        )))

    -- Threads that only take locks for reading get a clean verdict, in whatever order they do.
    pub ReadsOnly-clean :
        ReadsOnly (history events [])
        → (run_verification_from events target_name config).verdict ≡ clean
    unfolding modes_conflict
    ReadsOnly-clean k = clean-of_no_Inversion events target_name config (λ i.
        let (a, b) = Ordered-shared (history events []) i.first_thread i.first k i.first_ordered in
        let (c, d) =
          Ordered-shared (history events []) i.second_thread i.second k i.second_ordered in
        ground arith)
