-- ===== src/Tracked/Counting.antt =====
-- An observer of one resource, who counts the holds for writing and for reading, and refuses events
-- that two threads cannot have made while they share a lock.
use laplace.Prelude.{
  count, ℕ, suc, ◌-◌, ◌≤◌, ◌≡◌, ◌⊎◌, refl, ◌==◌, ltb, String, str_eq, Bool, ◌&&◌, Option, none,
  some, List, [], ◌∷◌, ◌++◌, if◌then◌else◌, arith,
}
use laplace.Event.{
  ProbeEvent, lock_acquired, lock_released, rw_lock_read_acquired, rw_lock_read_released,
  rw_lock_write_acquired, rw_lock_write_released,
}
use laplace.LockOrder.Edges.{HoldMode, exclusive, shared}
use laplace.Tracked.Threads.{
  Way, mutex, std_mutex, read_rw, write_rw, read_std_rw, write_std_rw, read_parking_lot_rw,
  write_parking_lot_rw, mode_of, Hold, is_reported, is_of, really, acquired_event, released_event,
}

unfoldable pub enter : HoldMode → ℕ × ℕ → Option (ℕ × ℕ)
enter exclusive (writing, reading) =
    if (writing == 0) && (reading == 0) then some (suc writing, reading) else none
enter shared (writing, reading) = if writing == 0 then some (writing, suc reading) else none

unfoldable pub leave : HoldMode → ℕ × ℕ → Option (ℕ × ℕ)
leave exclusive (writing, reading) = if ltb 0 writing then some (writing - 1, reading) else none
leave shared (writing, reading) = if ltb 0 reading then some (writing, reading - 1) else none

module _ {J : Type 0} where
  unfoldable pub observe : String → ProbeEvent J → ℕ × ℕ → Option (ℕ × ℕ)
  observe r (lock_acquired _ s) n = if str_eq s r then enter exclusive n else some n
  observe r (lock_released _ s) n = if str_eq s r then leave exclusive n else some n
  observe r (rw_lock_write_acquired _ s) n = if str_eq s r then enter exclusive n else some n
  observe r (rw_lock_write_released _ s) n = if str_eq s r then leave exclusive n else some n
  observe r (rw_lock_read_acquired _ s) n = if str_eq s r then enter shared n else some n
  observe r (rw_lock_read_released _ s) n = if str_eq s r then leave shared n else some n
  observe r _ n = some n

  unfoldable pub observe_all : String → List (ProbeEvent J) → ℕ × ℕ → Option (ℕ × ℕ)
  observe_all r [] n = some n
  observe_all r (e ∷ es) n = elim (observe r e n) [ none ↦ none | some n' ↦ observe_all r es n' ]

  pub observe_all-append :
      (r : String) (es : List (ProbeEvent J)) (e : ProbeEvent J) (n seen : ℕ × ℕ)
      → observe_all r es n ≡ some seen
      → observe_all r (es ++ (e ∷ [])) n ≡ observe r e seen
  unfolding observe_all
  observe_all-append r [] e n seen h = ground arith
  observe_all-append r (d ∷ es) e n seen h = go (observe_all-append r es e) (observe r d n) h
    where
      go :
          ((n' seen' : ℕ × ℕ)
            → observe_all r es n' ≡ some seen'
            → observe_all r (es ++ (e ∷ [])) n' ≡ observe r e seen')
          → (o : Option (ℕ × ℕ))
          → elim o [ none ↦ none | some n' ↦ observe_all r es n' ] ≡ some seen
          → elim o [ none ↦ none | some n' ↦ observe_all r (es ++ (e ∷ [])) n' ] ≡ observe r e seen
      go rest none h = ground arith
      go rest (some n') h = rest n' seen h

pub observe_events :
    (J : Type 0) (r s : String) (way : Way) (t : ℕ) (n : ℕ × ℕ)
    → (observe r (acquired_event {J = J} way t s) n
        ≡ (if str_eq s r then enter (mode_of way) n else some n))
      × (observe r (released_event {J = J} way t s) n
          ≡ (if str_eq s r then leave (mode_of way) n else some n))
unfolding observe
observe_events J r s mutex t n = (refl, refl)
observe_events J r s std_mutex t n = (refl, refl)
observe_events J r s read_rw t n = (refl, refl)
observe_events J r s write_rw t n = (refl, refl)
observe_events J r s read_std_rw t n = (refl, refl)
observe_events J r s write_std_rw t n = (refl, refl)
observe_events J r s read_parking_lot_rw t n = (refl, refl)
observe_events J r s write_parking_lot_rw t n = (refl, refl)

-- A hold that is reported.
abbrev pub seen : HoldMode → String → Hold → Bool
seen m r h = is_reported h.phase && is_of m r h

pub seen-really :
    (m : HoldMode) (r : String) (hs : List Hold) → count (seen m r) hs ≤ count (really m r) hs
seen-really m r [] = omega arith
seen-really m r (h ∷ hs) = ground (arith, seen-really m r hs)

-- One writer and no reader, or no writer.
abbrev pub Excluded : (writing reading : ℕ) → Type 0
Excluded writing reading = (writing ≡ 0) ⊎ ((writing ≡ 1) × (reading ≡ 0))
