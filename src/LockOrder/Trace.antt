-- ===== src/LockOrder/Trace.antt =====
-- What a history of events says about locks, stated without the verifier's collections. A history
-- has the newest event first.
use laplace.Prelude.{ℕ, String, ◌≡◌, ◌≢◌, ◌⊎◌, true, List, [], ◌∷◌}
use laplace.Event.{
  ProbeEvent, lock_acquired, lock_released, rw_lock_read_acquired, rw_lock_read_released,
  rw_lock_write_acquired, rw_lock_write_released,
}
use laplace.LockOrder.Edges.{HoldMode, exclusive, shared, Edge, modes_conflict}

-- The events of a list, oldest first, put on a history.
abbrev pub history : {J : Type 0} → List (ProbeEvent J) → List (ProbeEvent J) → List (ProbeEvent J)
history [] h = h
history (e ∷ es) h = history es (e ∷ h)

-- The later acquisition of each edge waits for the earlier one of the other.
pub record Inverts (a b : Edge) : Type 0 where
  pub there : a.acquired ≡ b.held
  pub back : b.acquired ≡ a.held
  pub blocks_there : modes_conflict a.acquired_mode b.held_mode ≡ true
  pub blocks_back : modes_conflict b.acquired_mode a.held_mode ≡ true

module _ {J : Type 0} where
  -- The event is an acquisition of `r` by thread `t`.
  abbrev pub Takes : ProbeEvent J → ℕ → String → HoldMode → Type 0
  Takes (lock_acquired u s) t r m = (u ≡ t) × (s ≡ r) × (m ≡ exclusive)
  Takes (rw_lock_write_acquired u s) t r m = (u ≡ t) × (s ≡ r) × (m ≡ exclusive)
  Takes (rw_lock_read_acquired u s) t r m = (u ≡ t) × (s ≡ r) × (m ≡ shared)
  Takes _ t r m = ⊥

  -- The event is a release of `r` by thread `t`.
  abbrev pub Drops : ProbeEvent J → ℕ → String → Type 0
  Drops (lock_released u s) t r = (u ≡ t) × (s ≡ r)
  Drops (rw_lock_write_released u s) t r = (u ≡ t) × (s ≡ r)
  Drops (rw_lock_read_released u s) t r = (u ≡ t) × (s ≡ r)
  Drops _ t r = ⊥

  -- After the history `h` thread `t` holds `r`, taken in mode `m`. A second acquisition by the same
  -- thread changes nothing until the resource is released.
  abbrev pub Holds : List (ProbeEvent J) → ℕ → String → HoldMode → Type 0
  Holds [] t r m = ⊥
  Holds (e ∷ h) t r m =
      (Takes e t r m × ((n : HoldMode) → ¬ Holds h t r n)) ⊎ (Holds h t r m × ¬ Drops e t r)

  -- Somewhere in the history thread `t` made the acquisition of the edge while it held the other
  -- resource.
  abbrev pub Ordered : List (ProbeEvent J) → ℕ → Edge → Type 0
  Ordered [] t e = ⊥
  Ordered (ev ∷ h) t e =
      (Takes ev t e.acquired e.acquired_mode × Holds h t e.held e.held_mode × (e.held ≢ e.acquired))
      ⊎ Ordered h t e

  -- The history has two acquisitions in opposite orders, whose modes block one another.
  pub record Inversion (h : List (ProbeEvent J)) : Type 0 where
    pub first_thread : ℕ
    pub second_thread : ℕ
    pub first : Edge
    pub second : Edge
    pub first_ordered : Ordered h first_thread first
    pub second_ordered : Ordered h second_thread second
    pub inverts : Inverts first second
