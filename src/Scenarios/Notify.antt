-- ===== src/Scenarios/Notify.antt =====
-- A wait that is notified between its polls.
use laplace.Prelude.{◌≡◌, refl, true, false, some, List, [], ◌∷◌}
use laplace.Notify.Waiters.{notified, wait_requested, wait_resolved, notified_one}
use laplace.Notify.Waits.{
  Happening, polled, one, wait_life, wait_calls, fresh, notify_told, wait_life-told,
}

abbrev happenings : List Happening
happenings = polled false ∷ polled false ∷ one ∷ polled true ∷ []

wait_trace :
    wait_life 2 happenings (some (notified 2 5)) (some [])
    ≡ some (wait_requested 2 5 ∷ notified_one 2 ∷ wait_resolved 2 5 ∷ [])
unfolding wait_life notified
wait_trace = refl

wait_life-told_example :
    wait_life 2 happenings (some (notified 2 5)) (some [])
    ≡ notify_told (wait_calls 2 5 fresh happenings) (some [])
wait_life-told_example = wait_life-told 2 5 happenings (some [])
