-- ===== src/Kraken/Validated.antt =====
-- What a scenario that was accepted promises, and which step an error names.
use laplace.Prelude.{
  ℕ, zero, suc, ◌+◌, ◌<◌, ◌≤◌, ap, ◌∙◌, ◌≡◌, ◌⊎◌, inl, inr, refl, String, none, some, List, [], ◌∷◌,
  length, arith, Option-cases,
}
use laplace.Kraken.Scenario.{
  Float, ScenarioStep, InvalidScenario, step, Validated, ok, err, validate, first_invalid,
  new_scenario, len, get_step, step_at,
}

module _ {F : Type 0} (float : Float F) where
  -- The step of index `n` is the first that is invalid, with the error `e`.
  abbrev pub FirstInvalid : ℕ → InvalidScenario F → List (ScenarioStep F) → Type 0
  FirstInvalid n e [] = ⊥
  FirstInvalid zero e (here ∷ rest) = validate float here ≡ some e
  FirstInvalid (suc n) e (here ∷ rest) = (validate float here ≡ none) × FirstInvalid n e rest

  abbrev pub AllValid : List (ScenarioStep F) → Type 0
  AllValid [] = Unit {0}
  AllValid (here ∷ rest) = (validate float here ≡ none) × AllValid rest

  -- What the result of `new_scenario name steps` is.
  abbrev pub NewLem : String → List (ScenarioStep F) → Validated F → Type 0
  NewLem name steps (err e) =
      (n : ℕ) × (inner : InvalidScenario F) × (e ≡ step n inner) × FirstInvalid n inner steps
  NewLem name steps (ok this) =
      (this ≡ record { name = name; steps = steps })
      × ((index : ℕ)
          → ((len this ≤ index) × (step_at this index ≡ none))
            ⊎ ((here : ScenarioStep F) × (index < len this)
                × (step_at this index ≡ some here)
                × (validate float here ≡ none)))

  first_invalid_lem :
      (steps : List (ScenarioStep F)) (idx : ℕ)
      → ((first_invalid float idx steps ≡ none) × AllValid steps)
        ⊎ ((n : ℕ) × (inner : InvalidScenario F) × (first_invalid float idx steps
              ≡ some (step (idx + n) inner))
            × FirstInvalid n inner steps)
  unfolding first_invalid
  first_invalid_lem [] idx = inl (refl, tt)
  first_invalid_lem (here ∷ rest) idx = elim (Option-cases (validate float here)) [
    | inr (e, invalid) ↦
        inr (0, e, rw (invalid, first_invalid) (ap (λ n. some (step n e)) (omega arith)), invalid)
    | inl valid ↦ elim (first_invalid_lem rest (suc idx)) [
      | inl (all, each) ↦ inl (rw (valid, first_invalid) all, (valid, each))
      | inr (n, inner, found, first) ↦ inr (
        suc n,
        inner,
        rw (valid, first_invalid) (found ∙ ap (λ m. some (step m inner)) (omega arith)),
        (valid, first),
      )
    ]
  ]

  get_step_lem :
      (steps : List (ScenarioStep F)) (index : ℕ)
      → AllValid steps
      → ((length steps ≤ index) × (get_step index steps ≡ none))
        ⊎ ((here : ScenarioStep F) × (index < length steps)
            × (get_step index steps ≡ some here)
            × (validate float here ≡ none))
  unfolding get_step
  get_step_lem [] index each = inl (omega arith, refl)
  get_step_lem (here ∷ rest) zero (valid, each) = inr (here, omega arith, refl, valid)
  get_step_lem (here ∷ rest) (suc index) (valid, each) = elim (get_step_lem rest index each) [
    | inl (le, nothing) ↦ inl (omega arith, nothing)
    | inr (there, lt, found, fine) ↦ inr (there, omega arith, found, fine)
  ]

  -- Whatever the floating-point operations answer: a scenario is refused just with the error of its
  -- first invalid step, under the index of that step; one that is accepted has the given name and
  -- steps, and it gives a step, which is valid, for just the indices below its length.
  pub new_scenario_lem :
      (name : String) (steps : List (ScenarioStep F))
      → NewLem name steps (new_scenario float name steps)
  unfolding new_scenario step_at len
  new_scenario_lem name steps = elim (first_invalid_lem steps 0) [
    | inl (all, each) ↦ rw (all, new_scenario) (refl, λ index. get_step_lem steps index each)
    | inr (n, inner, found, first) ↦
        rw (found, new_scenario) (n, inner, ap (λ m. step m inner) (omega arith), first)
  ]
