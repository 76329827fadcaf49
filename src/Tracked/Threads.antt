-- ===== src/Tracked/Threads.antt =====
-- Threads that share tracked locks: every call is cut where another thread may come between.
--
-- A lock is known by its resource name, which it has alone. The wrapped lock gives a guard for
-- writing when there is none of it, and one for reading when there is none for writing.
use laplace.Prelude.{
  count, at, set, ℕ, ◌==◌, ◌≡◌, refl, String, str_eq, Bool, true, false, ◌&&◌, none, some, List, [],
  ◌∷◌, ◌++◌, if◌then◌else◌,
}
use laplace.Event.{
  ProbeEvent, lock_acquired, lock_released, rw_lock_read_acquired, rw_lock_read_released,
  rw_lock_write_acquired, rw_lock_write_released,
}
use laplace.LockOrder.Edges.{HoldMode, exclusive, shared, mode_eq}
use laplace.Session.Sinks.{Process, current_thread_id, emit}
use laplace.Tracked.Locks.{
  Guard, lock_mutex, lock_std_mutex, read_rw_lock, write_rw_lock, read_std_rw_lock,
  write_std_rw_lock, read_parking_lot_rw_lock, write_parking_lot_rw_lock, drop_guard_of_mutex,
  drop_guard_of_std_mutex, drop_read_guard_of_rw_lock, drop_write_guard_of_rw_lock,
  drop_read_guard_of_std_rw_lock, drop_write_guard_of_std_rw_lock,
  drop_read_guard_of_parking_lot_rw_lock, drop_write_guard_of_parking_lot_rw_lock,
}

-- How a lock is acquired.
pub data Way : Type 0 where
  mutex std_mutex read_rw write_rw read_std_rw write_std_rw read_parking_lot_rw
        write_parking_lot_rw :
      Way

abbrev pub mode_of : Way → HoldMode
mode_of mutex = exclusive
mode_of std_mutex = exclusive
mode_of read_rw = shared
mode_of write_rw = exclusive
mode_of read_std_rw = shared
mode_of write_std_rw = exclusive
mode_of read_parking_lot_rw = shared
mode_of write_parking_lot_rw = exclusive

-- The id of its thread is known; the wrapped guard is there; the acquisition is reported; the release
-- is reported; the wrapped guard is gone.
pub data Phase : Type 0 where
  asking taken reported leaving gone : Phase

pub record Hold : Type 0 where
  pub way : Way
  pub guard : Guard
  pub phase : Phase

abbrev pub in_phase : Phase → Hold → Hold
in_phase p h = record h { phase = p }

-- The wrapped guard is there.
abbrev pub is_real : Phase → Bool
is_real asking = false
is_real gone = false
is_real _ = true

abbrev pub is_reported : Phase → Bool
is_reported reported = true
is_reported _ = false

abbrev pub is_of : HoldMode → String → Hold → Bool
is_of m r h = mode_eq (mode_of h.way) m && str_eq h.guard.resource_name r

abbrev pub really : HoldMode → String → Hold → Bool
really m r h = is_real h.phase && is_of m r h

-- Whether the wrapped lock gives a guard.
abbrev pub is_free : HoldMode → String → List Hold → Bool
is_free exclusive r hs = (count (really exclusive r) hs == 0) && (count (really shared r) hs == 0)
is_free shared r hs = count (really exclusive r) hs == 0

pub record World (J : Type 0) : Type 0 where
  pub holds : List Hold
  pub process : Process J

-- The OS thread is that which runs the step; holds have their numbers in the order of `asks`.
pub data Step : Type 0 where
  asks : (os : ℕ) (way : Way) (resource_name : String) → Step
  gets : (hold : ℕ) → Step
  reports announces : (os hold : ℕ) → Step
  frees : (hold : ℕ) → Step
  -- The wrapped lock is poisoned, and the acquisition panics.
  panics : (hold : ℕ) → Step

module _ {J : Type 0} where
  unfoldable pub report_hold :
      Way → (os thread_id : ℕ) (resource_name : String) → Process J → Process J
  unfolding lock_mutex lock_std_mutex read_rw_lock write_rw_lock read_std_rw_lock write_std_rw_lock
      read_parking_lot_rw_lock write_parking_lot_rw_lock
  report_hold mutex os t r s = (lock_mutex os t r s).1
  report_hold std_mutex os t r s = (lock_std_mutex os t r s).1
  report_hold read_rw os t r s = (read_rw_lock os t r s).1
  report_hold write_rw os t r s = (write_rw_lock os t r s).1
  report_hold read_std_rw os t r s = (read_std_rw_lock os t r s).1
  report_hold write_std_rw os t r s = (write_std_rw_lock os t r s).1
  report_hold read_parking_lot_rw os t r s = (read_parking_lot_rw_lock os t r s).1
  report_hold write_parking_lot_rw os t r s = (write_parking_lot_rw_lock os t r s).1

  unfoldable pub announce_hold : Way → (os : ℕ) → Guard → Process J → Process J
  unfolding drop_guard_of_mutex drop_guard_of_std_mutex drop_read_guard_of_rw_lock
      drop_write_guard_of_rw_lock drop_read_guard_of_std_rw_lock drop_write_guard_of_std_rw_lock
      drop_read_guard_of_parking_lot_rw_lock drop_write_guard_of_parking_lot_rw_lock
  announce_hold mutex os g s = drop_guard_of_mutex os g s
  announce_hold std_mutex os g s = drop_guard_of_std_mutex os g s
  announce_hold read_rw os g s = drop_read_guard_of_rw_lock os g s
  announce_hold write_rw os g s = drop_write_guard_of_rw_lock os g s
  announce_hold read_std_rw os g s = drop_read_guard_of_std_rw_lock os g s
  announce_hold write_std_rw os g s = drop_write_guard_of_std_rw_lock os g s
  announce_hold read_parking_lot_rw os g s = drop_read_guard_of_parking_lot_rw_lock os g s
  announce_hold write_parking_lot_rw os g s = drop_write_guard_of_parking_lot_rw_lock os g s

  -- What a step does to the hold with its number, in the phase where it can be taken.
  unfoldable pub take_on : Step → Hold → World J → World J
  unfolding report_hold announce_hold
  take_on (asks _ _ _) h w = w
  take_on (gets i) h w = elim h.phase [
    | asking ↦
        if is_free (mode_of h.way) h.guard.resource_name w.holds
        then record w { holds = set i (in_phase taken h) w.holds }
        else w
    | _ ↦ w
  ]
  take_on (reports os i) h w = elim h.phase [
    | taken ↦ record w {
      holds = set i (in_phase reported h) w.holds;
      process = report_hold h.way os h.guard.thread_id h.guard.resource_name w.process;
    }
    | _ ↦ w
  ]
  take_on (announces os i) h w = elim h.phase [
    | reported ↦ record w {
      holds = set i (in_phase leaving h) w.holds;
      process = announce_hold h.way os h.guard w.process;
    }
    | _ ↦ w
  ]
  take_on (frees i) h w = elim h.phase [
    | leaving ↦ record w { holds = set i (in_phase gone h) w.holds }
    | _ ↦ w
  ]
  take_on (panics i) h w = elim h.phase [
    | taken ↦ record w { holds = set i (in_phase gone h) w.holds }
    | _ ↦ w
  ]

  abbrev pub with_hold : ℕ → Step → World J → World J
  with_hold i s w = elim (at i w.holds) [ none ↦ w | some h ↦ take_on s h w ]

  unfoldable pub take_step : Step → World J → World J
  unfolding current_thread_id take_on
  take_step (asks os way r) w =
      let (process, id) = current_thread_id os w.process in
      record {
        holds =
            w.holds
            ++ (record {
              way = way;
              guard = record { resource_name = r; thread_id = id };
              phase = asking;
            }
                ∷ []);
        process = process;
      }
  take_step (gets i) w = with_hold i (gets i) w
  take_step (reports os i) w = with_hold i (reports os i) w
  take_step (announces os i) w = with_hold i (announces os i) w
  take_step (frees i) w = with_hold i (frees i) w
  take_step (panics i) w = with_hold i (panics i) w

  unfoldable pub take_all : List Step → World J → World J
  unfolding take_step
  take_all [] w = w
  take_all (s ∷ ss) w = take_all ss (take_step s w)

  abbrev pub acquired_event : Way → ℕ → String → ProbeEvent J
  acquired_event mutex t r = lock_acquired t r
  acquired_event std_mutex t r = lock_acquired t r
  acquired_event read_rw t r = rw_lock_read_acquired t r
  acquired_event write_rw t r = rw_lock_write_acquired t r
  acquired_event read_std_rw t r = rw_lock_read_acquired t r
  acquired_event write_std_rw t r = rw_lock_write_acquired t r
  acquired_event read_parking_lot_rw t r = rw_lock_read_acquired t r
  acquired_event write_parking_lot_rw t r = rw_lock_write_acquired t r

  abbrev pub released_event : Way → ℕ → String → ProbeEvent J
  released_event mutex t r = lock_released t r
  released_event std_mutex t r = lock_released t r
  released_event read_rw t r = rw_lock_read_released t r
  released_event write_rw t r = rw_lock_write_released t r
  released_event read_std_rw t r = rw_lock_read_released t r
  released_event write_std_rw t r = rw_lock_write_released t r
  released_event read_parking_lot_rw t r = rw_lock_read_released t r
  released_event write_parking_lot_rw t r = rw_lock_write_released t r

  pub report_hold_lem :
      (way : Way) (os t : ℕ) (r : String) (s : Process J)
      → report_hold way os t r s ≡ emit os (acquired_event way t r) s
  unfolding report_hold
  report_hold_lem mutex os t r s = refl
  report_hold_lem std_mutex os t r s = refl
  report_hold_lem read_rw os t r s = refl
  report_hold_lem write_rw os t r s = refl
  report_hold_lem read_std_rw os t r s = refl
  report_hold_lem write_std_rw os t r s = refl
  report_hold_lem read_parking_lot_rw os t r s = refl
  report_hold_lem write_parking_lot_rw os t r s = refl

  pub announce_hold_lem :
      (way : Way) (os : ℕ) (g : Guard) (s : Process J)
      → announce_hold way os g s ≡ emit os (released_event way g.thread_id g.resource_name) s
  unfolding announce_hold
  announce_hold_lem mutex os g s = refl
  announce_hold_lem std_mutex os g s = refl
  announce_hold_lem read_rw os g s = refl
  announce_hold_lem write_rw os g s = refl
  announce_hold_lem read_std_rw os g s = refl
  announce_hold_lem write_std_rw os g s = refl
  announce_hold_lem read_parking_lot_rw os g s = refl
  announce_hold_lem write_parking_lot_rw os g s = refl
