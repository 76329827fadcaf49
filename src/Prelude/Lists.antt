-- ===== src/Prelude/Lists.antt =====
-- Lists measured by native numbers, membership by recursion, and maps as association lists.
use Prim.Native.Nat.{ℕ, zero, suc, ◌+◌}
use mathlib.Core.Path.{◌≡◌, refl}
use mathlib.Core.Logic.{◌⊎◌}
use mathlib.Core.List.{List, [], ◌∷◌, ◌++◌}
use mathlib.Core.Bool.{Bool}
use mathlib.Core.Option.{Option, none, some}
use native.Mathlib.Omega.{arith}
use laplace.Prelude.Tests.{◌==◌, if◌then◌else◌}

module _ {ℓ} {A : Type ℓ} where
  abbrev pub length : List A → ℕ
  length [] = 0
  length (x ∷ xs) = suc (length xs)

  pub length-append : (xs ys : List A) → length (xs ++ ys) ≡ length xs + length ys
  length-append [] ys = omega arith
  length-append (x ∷ xs) ys = omega (arith, length-append xs ys)

-- `a` stands in the list.
abbrev pub Elem : {A : Type 0} → A → List A → Type 0
Elem a [] = ⊥
Elem a (x ∷ xs) = (a ≡ x) ⊎ Elem a xs

-- A map from native numbers, as an association list with one entry for each key.
module _ {ℓ} {V : Type ℓ} where
  unfoldable pub lookup : ℕ → List (ℕ × V) → Option V
  lookup wanted [] = none
  lookup wanted ((key, here) ∷ rest) = if key == wanted then some here else lookup wanted rest

  unfoldable pub insert : ℕ → V → List (ℕ × V) → List (ℕ × V)
  insert new value [] = (new, value) ∷ []
  insert new value ((key, here) ∷ rest) =
      if key == new then (new, value) ∷ rest else (key, here) ∷ insert new value rest

  pub lookup-insert :
      (new wanted : ℕ) (value : V) (entries : List (ℕ × V))
      → lookup wanted (insert new value entries)
        ≡ (if new == wanted then some value else lookup wanted entries)
  unfolding lookup insert
  lookup-insert new wanted value [] = refl
  lookup-insert new wanted value ((key, here) ∷ rest) =
      ground (arith, lookup-insert new wanted value rest)

-- How many elements pass a test, and the element at a place.
abbrev pub one : Bool → ℕ
one b = if b then 1 else 0

module _ {ℓ} {A : Type ℓ} where
  abbrev pub count : (A → Bool) → List A → ℕ
  count f [] = 0
  count f (x ∷ xs) = one (f x) + count f xs

  abbrev pub at : ℕ → List A → Option A
  at i [] = none
  at zero (x ∷ xs) = some x
  at (suc i) (x ∷ xs) = at i xs

  abbrev pub set : ℕ → A → List A → List A
  set i new [] = []
  set zero new (x ∷ xs) = new ∷ xs
  set (suc i) new (x ∷ xs) = x ∷ set i new xs

  pub count-set :
      (f : A → Bool) (i : ℕ) (x new : A) (xs : List A)
      → at i xs ≡ some x
      → count f (set i new xs) + one (f x) ≡ count f xs + one (f new)
  count-set f i x new [] found = absurd (ground arith)
  count-set f zero x new (y ∷ xs) found = ground arith
  count-set f (suc i) x new (y ∷ xs) found = omega (arith, count-set f i x new xs found)

  pub count-append :
      (f : A → Bool) (xs : List A) (x : A) → count f (xs ++ (x ∷ [])) ≡ count f xs + one (f x)
  count-append f [] x = omega arith
  count-append f (y ∷ xs) x = omega (arith, count-append f xs x)
