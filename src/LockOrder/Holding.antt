-- ===== src/LockOrder/Holding.antt =====
-- `held_by_thread` lists just what each thread holds.
use laplace.Prelude.{
  ℕ, String, eq_iff, ◌≡◌, ◌≢◌, ◌↔◌, ◌⊎◌, inl, inr, str_eq, true, false, Bool-cases, none, some,
  List, [], ◌∷◌, ◌++◌, Elem, insert, lookup, lookup-insert, ◌==◌, ==_iff, refl, sym, if◌then◌else◌,
  arith,
}
use laplace.Event.{ProbeEvent, lock_acquired}
use laplace.LockOrder.Edges.{HoldMode, Hold}
use laplace.LockOrder.Tracker.{Boundary, boundary, holds_resource, push_hold, retain_other, held_of}
use laplace.LockOrder.Trace.{Takes, Drops, Holds}

abbrev pub hold : String → HoldMode → Hold
hold r m = record { resource = r; mode = m }

Elem-append_one :
    {A : Type 0} (x a : A) (xs : List A) → Elem x (xs ++ (a ∷ [])) ↔ (Elem x xs ⊎ (x ≡ a))
Elem-append_one x a [] = ground arith
Elem-append_one x a (y ∷ ys) = ground (arith, Elem-append_one x a ys)

holds_resource_of :
    (r : String) (m : HoldMode) (hs : List Hold) → Elem (hold r m) hs → holds_resource r hs ≡ true
unfolding holds_resource
holds_resource_of r m [] e = absurd e
holds_resource_of r m (h ∷ hs) e = ground (arith, eq_iff h.resource r, holds_resource_of r m hs)

of_holds_resource :
    (r : String) (hs : List Hold) → holds_resource r hs ≡ true → (m : HoldMode) × Elem (hold r m) hs
unfolding holds_resource
of_holds_resource r [] e = absurd (ground arith)
of_holds_resource r (h ∷ hs) e = elim (Bool-cases (str_eq h.resource r)) [
  | inl same ↦ (h.mode, inl (ground (arith, eq_iff h.resource r)))
  | inr other ↦ let (m, p) = of_holds_resource r hs (ground arith) in (m, inr p)
]

push_hold-Elem :
    (x : Hold) (r : String) (m : HoldMode) (hs : List Hold)
    → Elem x (push_hold r m hs)
      ↔ (Elem x hs ⊎ ((x ≡ hold r m) × ((n : HoldMode) → ¬ Elem (hold r n) hs)))
unfolding push_hold
push_hold-Elem x r m hs = elim (Bool-cases (holds_resource r hs)) [
  | inl old ↦
      let (k, p) = of_holds_resource r hs old in
      rw (old, push_hold) (inl, λ s. elim s [ inl a ↦ a | inr (_, fresh) ↦ absurd (fresh k p) ])
  | inr new ↦
      let fresh : (n : HoldMode) → ¬ Elem (hold r n) hs = λ n p. cc (holds_resource_of r n hs p) in
      rw (new, push_hold)
        (
          (λ a. ground (arith, Elem-append_one x (hold r m) hs, fresh)),
          (λ s. ground (arith, Elem-append_one x (hold r m) hs)),
        )
]

retain_other-Elem :
    (x : Hold) (r : String) (hs : List Hold)
    → Elem x (retain_other r hs) ↔ (Elem x hs × (x.resource ≢ r))
unfolding retain_other
retain_other-Elem x r [] = ground arith
retain_other-Elem x r (h ∷ hs) = ground (arith, eq_iff h.resource r, retain_other-Elem x r hs)

held_of-insert :
    (t u : ℕ) (hs : List Hold) (m : List (ℕ × List Hold))
    → held_of t (insert u hs m) ≡ (if u == t then hs else held_of t m)
unfolding held_of
held_of-insert t u hs m = ground (arith, lookup-insert u t hs m)

module _ {J : Type 0} where
  pub boundary-none :
      (e : ProbeEvent J) (t : ℕ) (r : String) (m : HoldMode)
      → boundary e ≡ none
      → (¬ Takes e t r m) × (¬ Drops e t r)
  unfolding boundary
  boundary-none (lock_acquired u s) t r m h = ground arith
  boundary-none _ t r m h = ground arith

  pub boundary-acquire :
      (e : ProbeEvent J) (b : Boundary) (t : ℕ) (r : String) (m : HoldMode)
      → boundary e ≡ some b
      → b.is_acquire ≡ true
      → (Takes e t r m ↔ ((b.thread_id ≡ t) × (b.resource ≡ r) × (m ≡ b.mode))) × (¬ Drops e t r)
  unfolding boundary
  boundary-acquire (lock_acquired u s) b t r m h a = ground arith
  boundary-acquire _ b t r m h a = ground arith

  pub boundary-release :
      (e : ProbeEvent J) (b : Boundary) (t : ℕ) (r : String) (m : HoldMode)
      → boundary e ≡ some b
      → b.is_acquire ≡ false
      → (Drops e t r ↔ ((b.thread_id ≡ t) × (b.resource ≡ r))) × (¬ Takes e t r m)
  unfolding boundary
  boundary-release (lock_acquired u s) b t r m h a = ground arith
  boundary-release _ b t r m h a = ground arith

-- The map holds what the history says, thread by thread.
abbrev pub Tracks : {J : Type 0} → List (ProbeEvent J) → List (ℕ × List Hold) → Type 0
Tracks h m = (t : ℕ) (r : String) (md : HoldMode) → Elem (hold r md) (held_of t m) ↔ Holds h t r md

fresh_iff :
    {J : Type 0} (h : List (ProbeEvent J)) (m : List (ℕ × List Hold)) (t : ℕ) (r : String)
    → Tracks h m
    → ((n : HoldMode) → ¬ Elem (hold r n) (held_of t m)) ↔ ((n : HoldMode) → ¬ Holds h t r n)
fresh_iff h m t r tr = (λ f n p. f n ((tr t r n).1 p), λ f n p. f n ((tr t r n).0 p))

module _ {J : Type 0} (e : ProbeEvent J) (h : List (ProbeEvent J)) (m : List (ℕ × List Hold)) where
  pub Tracks-other : boundary e ≡ none → Tracks h m → Tracks (e ∷ h) m
  Tracks-other b tr t r md = ground (arith, boundary-none e t r md b, tr t r md)

  acquire_own :
      (b : Boundary) (r : String) (md : HoldMode)
      → boundary e ≡ some b
      → b.is_acquire ≡ true
      → Tracks h m
      → Elem (hold r md) (push_hold b.resource b.mode (held_of b.thread_id m))
        ↔ Holds (e ∷ h) b.thread_id r md
  acquire_own b r md eq a tr = elim (Bool-cases (str_eq b.resource r)) [
    | inr other ↦ ground (
      arith,
      eq_iff b.resource r,
      push_hold-Elem (hold r md) b.resource b.mode (held_of b.thread_id m),
      boundary-acquire e b b.thread_id r md eq a,
      tr b.thread_id r md,
    )
    | inl same ↦
        let q : r ≡ b.resource = sym ((eq_iff b.resource r).0 same) in
        rw q (
          ground (
            arith,
            push_hold-Elem (hold b.resource md) b.resource b.mode (held_of b.thread_id m),
            boundary-acquire e b b.thread_id b.resource md eq a,
            fresh_iff h m b.thread_id b.resource tr,
            tr b.thread_id b.resource md,
          ))
  ]

  pub Tracks-acquire :
      (b : Boundary)
      → boundary e ≡ some b
      → b.is_acquire ≡ true
      → Tracks h m
      → Tracks (e ∷ h) (insert b.thread_id (push_hold b.resource b.mode (held_of b.thread_id m)) m)
  Tracks-acquire b eq a tr t r md = elim (Bool-cases (b.thread_id == t)) [
    | inr other ↦ ground (
      arith,
      held_of-insert t b.thread_id (push_hold b.resource b.mode (held_of b.thread_id m)) m,
      boundary-acquire e b t r md eq a,
      tr t r md,
    )
    | inl same ↦
        let p : t ≡ b.thread_id = ground arith in
        rw
          (
            p,
            held_of-insert b.thread_id b.thread_id
                (push_hold b.resource b.mode (held_of b.thread_id m)) m,
            (==_iff b.thread_id b.thread_id).1 refl,
          )
          (acquire_own b r md eq a tr)
  ]

  pub Tracks-release :
      (b : Boundary)
      → boundary e ≡ some b
      → b.is_acquire ≡ false
      → Tracks h m
      → Tracks (e ∷ h) (insert b.thread_id (retain_other b.resource (held_of b.thread_id m)) m)
  Tracks-release b eq a tr t r md = ground (
    arith,
    held_of-insert t b.thread_id (retain_other b.resource (held_of b.thread_id m)) m,
    boundary-release e b t r md eq a,
    tr t r md,
    retain_other-Elem (hold r md) b.resource (held_of b.thread_id m),
  )

  -- A release by a thread that has no entry.
  pub Tracks-release_missing :
      (b : Boundary)
      → boundary e ≡ some b
      → b.is_acquire ≡ false
      → lookup b.thread_id m ≡ none
      → Tracks h m
      → Tracks (e ∷ h) m
  unfolding held_of
  Tracks-release_missing b eq a missing tr t r md =
      ground (arith, boundary-release e b t r md eq a, tr t r md)

pub held_of-some :
    (t : ℕ) (m : List (ℕ × List Hold)) (hs : List Hold) → lookup t m ≡ some hs → held_of t m ≡ hs
unfolding held_of
held_of-some t m hs s = ground arith
