-- ===== src/Time/Order.antt =====
-- The order of scheduled events: the earliest is the greatest.
use laplace.Prelude.{ℕ, ◌<◌, ◌≡◌, ◌⊎◌, ◌↔◌, inl, inr, refl, sym, subst, true, arith, some}
use laplace.Time.Scheduled.{
  ScheduledEvent, Ordering, less, equal, greater, compare, eq, cmp, partial_cmp,
}

-- By time, then by the Lamport clock, then by the id.
abbrev Earlier : ScheduledEvent → ScheduledEvent → Type 0
Earlier a b =
    (a.scheduled_at_ns < b.scheduled_at_ns)
    ⊎ ((a.scheduled_at_ns ≡ b.scheduled_at_ns)
        × ((a.lamport < b.lamport) ⊎ ((a.lamport ≡ b.lamport) × (a.event_id < b.event_id))))

abbrev SameKeys : ScheduledEvent → ScheduledEvent → Type 0
SameKeys a b =
    (a.scheduled_at_ns ≡ b.scheduled_at_ns) × (a.lamport ≡ b.lamport) × (a.event_id ≡ b.event_id)

-- What the answer of a comparison means.
abbrev Answered : ScheduledEvent → ScheduledEvent → Ordering → Type 0
Answered a b greater = Earlier a b
Answered a b equal = SameKeys a b
Answered a b less = Earlier b a

compare_lem :
    (m n : ℕ)
    → ((compare m n ≡ less) × (m < n))
      ⊎ (((compare m n ≡ equal) × (m ≡ n)) ⊎ ((compare m n ≡ greater) × (n < m)))
unfolding compare
compare_lem m n = ground arith

cmp-Answered : (a b : ScheduledEvent) → Answered a b (cmp a b)
unfolding cmp
cmp-Answered a b = elim (compare_lem b.scheduled_at_ns a.scheduled_at_ns) [
  | inl (c, lt) ↦ rw (c, cmp) (inl lt)
  | inr (inr (c, lt)) ↦ rw (c, cmp) (inl lt)
  | inr (inl (c, time)) ↦ elim (compare_lem b.lamport a.lamport) [
    | inl (d, lt) ↦ rw (c, d, cmp) (inr (time, inl lt))
    | inr (inr (d, lt)) ↦ rw (c, d, cmp) (inr (sym time, inl lt))
    | inr (inl (d, clock)) ↦ elim (compare_lem b.event_id a.event_id) [
      | inl (e, lt) ↦ rw (c, d, e, cmp) (inr (time, inr (clock, lt)))
      | inr (inr (e, lt)) ↦ rw (c, d, e, cmp) (inr (sym time, inr (sym clock, lt)))
      | inr (inl (e, id)) ↦ rw (c, d, e, cmp) (sym time, sym clock, sym id)
    ]
  ]
]

from_answer :
    (a b : ScheduledEvent) (o : Ordering)
    → Answered a b o
    → (Earlier a b → o ≡ greater) × (Earlier b a → o ≡ less) × (SameKeys a b → o ≡ equal)
from_answer a b less k = ground arith
from_answer a b equal k = ground arith
from_answer a b greater k = ground arith

-- The comparison of two events answers `greater` just for the first one earlier (by the time, then
-- the Lamport clock, then the id), `less` just for the second one earlier, and `equal` just for
-- events that are equal (which is a matter of their ids) and have the same time and the same Lamport
-- clock; the partial comparison gives the same answer.
cmp_lem :
    (a b : ScheduledEvent)
    → (cmp a b ≡ greater ↔ Earlier a b)
      × (cmp a b ≡ less ↔ Earlier b a)
      × (cmp a b ≡ equal
          ↔ ((a.scheduled_at_ns ≡ b.scheduled_at_ns) × (a.lamport ≡ b.lamport) × (eq a b ≡ true)))
      × (partial_cmp a b ≡ some (cmp a b))
unfolding partial_cmp eq
cmp_lem a b =
    let (is_greater, is_less, is_equal) = from_answer a b (cmp a b) (cmp-Answered a b) in
    let means : (o : Ordering) → cmp a b ≡ o → Answered a b o =
      λ o answer. subst (Answered a b) answer (cmp-Answered a b) in
    let same_keys : cmp a b ≡ equal → SameKeys a b = means equal in
    (
      (means greater, is_greater),
      (means less, is_less),
      (
        λ answer. let (time, clock, id) = same_keys answer in (time, clock, ground (arith, id)),
        λ (time, clock, same). is_equal (time, clock, ground arith),
      ),
      refl,
    )
