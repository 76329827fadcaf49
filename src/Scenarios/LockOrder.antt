-- ===== src/Scenarios/LockOrder.antt =====
-- The lock-order verifier on short lists of events, those of the crate's own tests among them.
use laplace.Prelude.{
  ℕ, String, str_append, str_eq, eq_iff, ◌↔◌, if◌then◌else◌, ◌≡◌, refl, true, List, [], ◌∷◌, lookup,
  insert, arith,
}
use laplace.Event.{
  ProbeEvent, lock_acquired, rw_lock_read_acquired, rw_lock_read_released, rw_lock_write_acquired,
  lock_released,
}
use laplace.LockOrder.Edges.{closes, modes_conflict}
use laplace.LockOrder.Verify.{
  ProbeSessionConfig, ReferenceVerdict, clean, bug_found, run_verification_from, render,
}
use laplace.LockOrder.Trace.{Inversion, history}
use laplace.LockOrder.Verdict.{bug_found-Inversion, RealInversion-bug_found}
use laplace.LockOrder.Nesting.{NotNested, RealInversion}
use laplace.LockOrder.Discipline.{Ranked-clean, Ranked, ReadsOnly, ReadsOnly-clean}

abbrev Event : Type 0
Event = ProbeEvent (Unit {0})

abbrev config : ProbeSessionConfig
config = record { max_depth = 500; write_ard = true; output_dir = "." }

-- The test `reference_verifier_detects_ab_ba_lock_order_cycle`.
abbrev ab_ba : List Event
ab_ba = lock_acquired 0 "a" ∷ lock_acquired 0 "b" ∷ lock_acquired 1 "b" ∷ lock_acquired 1 "a" ∷ []

ab_ba_bug :
    (run_verification_from ab_ba "t" config).verdict ≡ bug_found "t: lock-order cycle b->a->b"
unfolding run_verification_from lookup insert closes modes_conflict
ab_ba_bug = refl

bug_found-Inversion_example :
    (i : Inversion (history ab_ba [])) × ("t: lock-order cycle b->a->b"
      ≡ str_append "t" (str_append ": lock-order cycle " (render i.first.held i.first.acquired)))
bug_found-Inversion_example = bug_found-Inversion ab_ba "t" config ab_ba_bug

ab_ba-NotNested : NotNested (history ab_ba [])
ab_ba-NotNested = (
  (λ t r m k. ground (arith, eq_iff "b" "a", eq_iff "a" "a", eq_iff "a" r, eq_iff "b" r)),
  (
    (λ t r m k. ground (arith, eq_iff "b" "a", eq_iff "a" "b", eq_iff "a" r, eq_iff "b" r)),
    (
      (λ t r m k. ground (arith, eq_iff "a" "b", eq_iff "a" r, eq_iff "b" r)),
      ((λ t r m k. refl), tt),
    ),
  ),
)

RealInversion-bug_found_example :
    RealInversion (history ab_ba [])
    ↔ ((d : String) × ((run_verification_from ab_ba "t" config).verdict ≡ bug_found d))
RealInversion-bug_found_example = RealInversion-bug_found ab_ba "t" config ab_ba-NotNested

abbrev in_order : List Event
in_order =
    lock_acquired 0 "a" ∷ lock_acquired 0 "b" ∷ lock_acquired 1 "a" ∷ lock_acquired 1 "b" ∷ []

abbrev rank : String → ℕ
rank s = if str_eq s "a" then 0 else 1

in_order-Ranked : Ranked rank (history in_order [])
in_order-Ranked = (
  (λ t r s m n k h o. ground (arith, eq_iff r "a", eq_iff s "a", eq_iff "b" "a", eq_iff "a" "a")),
  (
    (λ t r s m n k h o. ground (arith, eq_iff r "a", eq_iff s "a", eq_iff "b" "a", eq_iff "a" "a")),
    (
      (λ t r s m n k h o.
          ground (arith, eq_iff r "a", eq_iff s "a", eq_iff "b" "a", eq_iff "a" "a")),
      ((λ t r s m n k h o. ground arith), tt),
    ),
  ),
)

Ranked-clean_example : (run_verification_from in_order "t" config).verdict ≡ clean
Ranked-clean_example = Ranked-clean in_order "t" config rank in_order-Ranked

-- The order of the `ab_ba` test, with readers only.
abbrev readers : List Event
readers =
    rw_lock_read_acquired 0 "a"
    ∷ rw_lock_read_acquired 0 "b"
    ∷ rw_lock_read_acquired 1 "b"
    ∷ rw_lock_read_acquired 1 "a"
    ∷ []

readers-ReadsOnly : ReadsOnly (history readers [])
readers-ReadsOnly = (
  (λ t r m k. ground arith),
  ((λ t r m k. ground arith), ((λ t r m k. ground arith), ((λ t r m k. ground arith), tt))),
)

ReadsOnly-clean_example : (run_verification_from readers "t" config).verdict ≡ clean
ReadsOnly-clean_example = ReadsOnly-clean readers "t" config readers-ReadsOnly

abbrev verdict_of : List Event → ReferenceVerdict
verdict_of events = (run_verification_from events "t" config).verdict

-- One thread that takes two locks in both orders, one after the other.
alone_bug :
    verdict_of (
      lock_acquired 7 "a"
      ∷ lock_acquired 7 "b"
      ∷ lock_released 7 "b"
      ∷ lock_released 7 "a"
      ∷ lock_acquired 7 "b"
      ∷ lock_acquired 7 "a"
      ∷ [])
    ≡ bug_found "t: lock-order cycle b->a->b"
unfolding run_verification_from lookup insert closes modes_conflict
alone_bug = refl

-- Three threads that take two of three locks each, round a circle.
circle_clean :
    verdict_of (
      lock_acquired 0 "a"
      ∷ lock_acquired 0 "b"
      ∷ lock_acquired 1 "b"
      ∷ lock_acquired 1 "c"
      ∷ lock_acquired 2 "c"
      ∷ lock_acquired 2 "a"
      ∷ [])
    ≡ clean
unfolding run_verification_from lookup insert closes modes_conflict
circle_clean = refl

-- What is left of a run where thread 0 reads `a`.
abbrev opposed : List Event
opposed =
    lock_acquired 0 "b"
    ∷ lock_released 0 "b"
    ∷ rw_lock_read_released 0 "a"
    ∷ lock_acquired 1 "b"
    ∷ rw_lock_write_acquired 1 "a"
    ∷ []

-- A second hold of `a` in between, which is released alone, hides the first one.
nested_reads :
    (verdict_of (rw_lock_read_acquired 0 "a" ∷ opposed) ≡ bug_found "t: lock-order cycle b->a->b")
    × (verdict_of (
          rw_lock_read_acquired 0 "a"
          ∷ rw_lock_read_acquired 0 "a"
          ∷ rw_lock_read_released 0 "a"
          ∷ opposed)
        ≡ clean)
unfolding run_verification_from lookup insert closes modes_conflict
nested_reads = (refl, refl)
