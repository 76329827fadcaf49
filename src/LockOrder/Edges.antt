-- ===== src/LockOrder/Edges.antt =====
-- crates/laplace-probe-sdk/src/session.rs: hold modes, the edges of the lock order, and the inner
-- loop of `find_lock_order_cycle`.
--
-- The hash set `order_edges` is a list without repetition: the source only asks it whether some
-- edge passes a test, so the order in which a hash set is walked does not show.
use laplace.Prelude.{
  String, str_eq, Bool, true, false, ◌&&◌, ◌||◌, not, List, [], ◌∷◌, if◌then◌else◌,
}

pub data HoldMode : Type 0 where
  exclusive shared : HoldMode

-- `a == HoldMode::Shared`.
abbrev pub is_shared : HoldMode → Bool
is_shared exclusive = false
is_shared shared = true

abbrev pub mode_eq : HoldMode → HoldMode → Bool
mode_eq exclusive exclusive = true
mode_eq shared shared = true
mode_eq _ _ = false

unfoldable pub modes_conflict : HoldMode → HoldMode → Bool
modes_conflict a b = not (is_shared a && is_shared b)

-- An entry `(resource, mode)` of a thread's vector in `held_by_thread`.
pub record Hold : Type 0 where
  pub resource : String
  pub mode : HoldMode

-- A tuple of `order_edges`: some thread acquired `acquired` while it held `held`.
pub record Edge : Type 0 where
  pub held : String
  pub held_mode : HoldMode
  pub acquired : String
  pub acquired_mode : HoldMode

-- The test of `order_edges.iter().any(..)` at one edge.
unfoldable pub closes : String → HoldMode → String → HoldMode → Edge → Bool
unfolding modes_conflict
closes resource mode prior prior_mode e =
    str_eq e.held resource
    && (str_eq e.acquired prior
        && (modes_conflict mode e.held_mode && modes_conflict e.acquired_mode prior_mode))

unfoldable pub any_closes : String → HoldMode → String → HoldMode → List Edge → Bool
any_closes resource mode prior prior_mode [] = false
any_closes resource mode prior prior_mode (e ∷ es) =
    closes resource mode prior prior_mode e || any_closes resource mode prior prior_mode es

abbrev pub edge_eq : Edge → Edge → Bool
edge_eq a b =
    str_eq a.held b.held
    && (mode_eq a.held_mode b.held_mode
        && (str_eq a.acquired b.acquired && mode_eq a.acquired_mode b.acquired_mode))

unfoldable pub contains_edge : Edge → List Edge → Bool
contains_edge a [] = false
contains_edge a (e ∷ es) = edge_eq a e || contains_edge a es

-- `HashSet::insert`.
unfoldable pub insert_edge : Edge → List Edge → List Edge
unfolding contains_edge
insert_edge a es = if contains_edge a es then es else a ∷ es

-- The outcome of a step: the function returns with the pair of a cycle, or the loop goes on.
pub data Outcome (A : Type 0) : Type 0 where
  cycle : (prior resource : String) → Outcome A
  go : A → Outcome A

-- The inner loop, over what the acquiring thread holds.
unfoldable pub record_edges : String → HoldMode → List Hold → List Edge → Outcome (List Edge)
unfolding any_closes insert_edge
record_edges resource mode [] es = go es
record_edges resource mode (h ∷ hs) es = elim (str_eq h.resource resource) [
  | true ↦ record_edges resource mode hs es
  | false ↦ elim (any_closes resource mode h.resource h.mode es) [
    | true ↦ cycle h.resource resource
    | false ↦ record_edges resource mode hs (
        insert_edge
          (record {
            held = h.resource;
            held_mode = h.mode;
            acquired = resource;
            acquired_mode = mode;
          })
          es)
  ]
]
