-- ===== src/LockOrder/Tracker.antt =====
-- crates/laplace-probe-sdk/src/session.rs: what the outer loop of `find_lock_order_cycle` does with
-- each event. The map `held_by_thread` is an association list from thread ids.
use laplace.Prelude.{
  ℕ, String, str_eq, Bool, true, false, ◌||◌, Option, none, some, List, [], ◌∷◌, ◌++◌, lookup,
  insert, if◌then◌else◌,
}
use laplace.Event.{
  ProbeEvent, lock_acquired, lock_released, rw_lock_read_acquired, rw_lock_read_released,
  rw_lock_write_acquired, rw_lock_write_released,
}
use laplace.LockOrder.Edges.{
  HoldMode, exclusive, shared, Hold, Edge, Outcome, cycle, go, record_edges,
}

-- The tuple `(thread_id, resource, mode, is_acquire)` that the loop takes from an event.
pub record Boundary : Type 0 where
  pub thread_id : ℕ
  pub resource : String
  pub mode : HoldMode
  pub is_acquire : Bool

module _ {J : Type 0} where
  -- The `match` of the loop; `none` is its `continue`.
  unfoldable pub boundary : ProbeEvent J → Option Boundary
  boundary (lock_acquired t r) =
      some (record { thread_id = t; resource = r; mode = exclusive; is_acquire = true })
  boundary (rw_lock_write_acquired t r) =
      some (record { thread_id = t; resource = r; mode = exclusive; is_acquire = true })
  boundary (rw_lock_read_acquired t r) =
      some (record { thread_id = t; resource = r; mode = shared; is_acquire = true })
  boundary (lock_released t r) =
      some (record { thread_id = t; resource = r; mode = exclusive; is_acquire = false })
  boundary (rw_lock_write_released t r) =
      some (record { thread_id = t; resource = r; mode = exclusive; is_acquire = false })
  boundary (rw_lock_read_released t r) =
      some (record { thread_id = t; resource = r; mode = exclusive; is_acquire = false })
  boundary _ = none

-- The two collections that the loop of `find_lock_order_cycle` keeps.
pub record Tracker : Type 0 where
  pub held_by_thread : List (ℕ × List Hold)
  pub order_edges : List Edge

unfoldable pub holds_resource : String → List Hold → Bool
holds_resource resource [] = false
holds_resource resource (h ∷ hs) = str_eq h.resource resource || holds_resource resource hs

-- The `push` after the inner loop: a resource is entered once, with the mode of its first hold.
unfoldable pub push_hold : String → HoldMode → List Hold → List Hold
unfolding holds_resource
push_hold resource mode hs =
    if holds_resource resource hs
    then hs
    else hs ++ (record { resource = resource; mode = mode } ∷ [])

-- `held.retain(|(held_resource, _)| held_resource != resource)`.
unfoldable pub retain_other : String → List Hold → List Hold
retain_other resource [] = []
retain_other resource (h ∷ hs) =
    let rest = retain_other resource hs in if str_eq h.resource resource then rest else h ∷ rest

-- `held_by_thread.entry(thread_id).or_default()`, as a value.
unfoldable pub held_of : ℕ → List (ℕ × List Hold) → List Hold
held_of t m = elim (lookup t m) [ none ↦ [] | some hs ↦ hs ]

unfoldable pub acquire : Tracker → ℕ → String → HoldMode → Outcome Tracker
unfolding held_of record_edges push_hold
acquire tr t resource mode =
    elim (record_edges resource mode (held_of t tr.held_by_thread) tr.order_edges) [
      | cycle p r ↦ cycle p r
      | go es ↦ go (record {
        held_by_thread =
            insert t (push_hold resource mode (held_of t tr.held_by_thread)) tr.held_by_thread;
        order_edges = es;
      })
    ]

unfoldable pub release : Tracker → ℕ → String → Tracker
unfolding retain_other
release tr t resource = elim (lookup t tr.held_by_thread) [
  | none ↦ tr
  | some hs ↦ record tr { held_by_thread = insert t (retain_other resource hs) tr.held_by_thread }
]

-- What the loop does at one boundary.
unfoldable pub step_at : Tracker → Option Boundary → Outcome Tracker
unfolding acquire release
step_at tr none = go tr
step_at tr (some b) =
    if b.is_acquire
    then acquire tr b.thread_id b.resource b.mode
    else go (release tr b.thread_id b.resource)

abbrev pub new_tracker : Tracker
new_tracker = record { held_by_thread = []; order_edges = [] }

module _ {J : Type 0} where
  unfoldable pub step : Tracker → ProbeEvent J → Outcome Tracker
  unfolding step_at boundary
  step tr e = step_at tr (boundary e)

  -- The outer loop.
  unfoldable pub scan : Tracker → List (ProbeEvent J) → Outcome Tracker
  unfolding step
  scan tr [] = go tr
  scan tr (e ∷ es) = elim (step tr e) [ cycle p r ↦ cycle p r | go tr' ↦ scan tr' es ]
