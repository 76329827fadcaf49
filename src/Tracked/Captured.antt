-- ===== src/Tracked/Captured.antt =====
-- What a capture session shows of threads that share tracked locks.
use laplace.Prelude.{ℕ, ◌≡◌, inl, refl, String, none, some, List, [], ◌∷◌}
use laplace.Session.Sinks.{Process, local_sender, begin, finish, received}
use laplace.Tracked.Threads.{
  World, Step, asks, gets, reports, announces, frees, panics, take_step, take_all,
}
use laplace.Tracked.Counting.{observe_all, seen}
use laplace.Tracked.Observed.{Shared, counted}
use laplace.Tracked.Exclusion.{
  gets-Shared, frees-Shared, reports-Shared, announces-Shared, asks-Shared, with_hold-Shared,
}

module _ {J : Type 0} where
  take_step-Shared :
      (tx : ℕ) (r : String) (s : Step) (w : World J) → Shared tx r w → Shared tx r (take_step s w)
  unfolding take_step
  take_step-Shared tx r (asks os way name) w k = asks-Shared tx r w k os way name
  take_step-Shared tx r (gets i) w k = with_hold-Shared tx r w k i (gets i) (gets-Shared tx r w k i)
  take_step-Shared tx r (reports os i) w k =
      with_hold-Shared tx r w k i (reports os i) (reports-Shared tx r w k os i)
  take_step-Shared tx r (announces os i) w k =
      with_hold-Shared tx r w k i (announces os i) (announces-Shared tx r w k os i)
  take_step-Shared tx r (frees i) w k =
      with_hold-Shared tx r w k i (frees i)
        (λ way guard p found. (frees-Shared tx r w k i way guard p found).0)
  take_step-Shared tx r (panics i) w k =
      with_hold-Shared tx r w k i (panics i)
        (λ way guard p found. (frees-Shared tx r w k i way guard p found).1)

  take_all-Shared :
      (tx : ℕ) (r : String) (ss : List Step) (w : World J)
      → Shared tx r w
      → Shared tx r (take_all ss w)
  unfolding take_all
  take_all-Shared tx r [] w k = k
  take_all-Shared tx r (s ∷ ss) w k =
      take_all-Shared tx r ss (take_step s w) (take_step-Shared tx r s w k)

  -- Where no thread has a sink of its own and there is no global one, where no tracked lock is held
  -- or asked for when the session begins, and where each lock has a resource name of its own:
  -- whatever threads do with their tracked locks while a capture session runs, and however their
  -- steps interleave, the events that the session returns never show a hold for writing of a lock
  -- beside another hold of it, nor the release of a hold that they do not show, and they show as
  -- many holds of each lock, for writing and for reading, as are reported and not yet announced for
  -- release.
  pub finish-observe_all :
      (tx : ℕ) (s : Process J) (ss : List Step) (r : String)
      → ((os : ℕ) → local_sender os s ≡ none)
      → s.global_probe_sender ≡ none
      → received tx s.sent ≡ []
      → let w = take_all ss (record { holds = []; process = begin tx s }) in
        observe_all r (finish tx w.process).1 (0, 0) ≡ some (counted seen r w.holds)
  unfolding finish local_sender
  finish-observe_all tx s ss r no_local no_global unused =
      (take_all-Shared tx r ss _ started).observed
    where
      started : Shared tx r (record { holds = []; process = begin tx s })
      started =
          unfold begin observe_all in
          record {
            excluded = inl refl;
            session = record { no_local = no_local; no_global = no_global; session = refl };
            observed = rw unused refl;
          }
