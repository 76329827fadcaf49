-- ===== src/Kraken/Scenario.antt =====
-- crates/laplace-interfaces/src/domain/kraken/types.rs: the steps of a scenario and their validation.
--
-- Floating-point numbers are an argument, with the operations that the validation uses. The texts of
-- the errors are left out, and what they tell is kept.
use laplace.Prelude.{
  ℕ, zero, suc, String, Bool, true, false, ◌||◌, ◌&&◌, not, ltb, ◌==◌, if◌then◌else◌, Option, none,
  some, List, [], ◌∷◌, map, length,
}

pub data VuState : Type 0 where
  idle thinking requesting validating waiting finished : VuState

unfoldable pub is_terminal : VuState → Bool
is_terminal finished = true
is_terminal _ = false

unfoldable pub is_blocking : VuState → Bool
is_blocking requesting = true
is_blocking waiting = true
is_blocking _ = false

-- The operations of `f64` that a validation uses: `sum` is that of an iterator.
pub record Float (F : Type 0) : Type 0 where
  pub zero_float : F
  pub one_float : F
  -- `0.001`.
  pub tolerance : F
  pub less_than : F → F → Bool
  pub less_or_equal : F → F → Bool
  pub minus : F → F → F
  pub absolute : F → F
  pub sum : List F → F

pub data ThinkTimeDistribution (F : Type 0) : Type 0 where
  normal : (mean std_dev : F) → ThinkTimeDistribution F
  uniform : (least most : ℕ) → ThinkTimeDistribution F

pub data ScenarioStep (F : Type 0) : Type 0 where
  think : ThinkTimeDistribution F → ScenarioStep F
  request :
      (method path : String) (headers : List (String × String)) (body : Option String)
      → (extractors : List (String × String)) → ScenarioStep F
  branch : (choices : List (F × ℕ)) → ScenarioStep F
  retry_on_error : (max_retries : ℕ) → ScenarioStep F
  loop : (iterations jump_back_idx : ℕ) → ScenarioStep F
  finish : ScenarioStep F

-- `KrakenError::InvalidScenario`, by what its text tells.
pub data InvalidScenario (F : Type 0) : Type 0 where
  negative_parameters : (mean std_dev : F) → InvalidScenario F
  least_above_most : (least most : ℕ) → InvalidScenario F
  no_choice : InvalidScenario F
  probabilities_must_sum_to_one : (total : F) → InvalidScenario F
  probability_out_of_range : F → InvalidScenario F
  no_retries : InvalidScenario F
  no_iterations : InvalidScenario F
  step : (idx : ℕ) → InvalidScenario F → InvalidScenario F

pub record Scenario (F : Type 0) : Type 0 where
  pub name : String
  pub steps : List (ScenarioStep F)

pub data Validated (F : Type 0) : Type 0 where
  ok : Scenario F → Validated F
  err : InvalidScenario F → Validated F

module _ {F : Type 0} where
  -- The loop over the choices: the first probability that is not in `[0, 1]`.
  unfoldable pub out_of_range : Float F → List (F × ℕ) → Option F
  out_of_range float [] = none
  out_of_range float ((p, target) ∷ choices) =
      if not (float.less_or_equal float.zero_float p && float.less_or_equal p float.one_float)
      then some p
      else out_of_range float choices

  -- `none` is `Ok(())`.
  unfoldable pub validate_choices : Float F → List (F × ℕ) → Option (InvalidScenario F)
  unfolding out_of_range
  validate_choices float [] = some no_choice
  validate_choices float (choice ∷ choices) =
      let total = float.sum (map (λ (p, _). p) (choice ∷ choices)) in
      if float.less_than float.tolerance (float.absolute (float.minus total float.one_float))
      then some (probabilities_must_sum_to_one total)
      else elim (out_of_range float (choice ∷ choices)) [
        | some p ↦ some (probability_out_of_range p)
        | none ↦ none
      ]

  unfoldable pub validate : Float F → ScenarioStep F → Option (InvalidScenario F)
  unfolding validate_choices
  validate float (think (normal mean std_dev)) =
      if float.less_than mean float.zero_float || float.less_than std_dev float.zero_float
      then some (negative_parameters mean std_dev)
      else none
  validate float (think (uniform least most)) =
      if ltb most least then some (least_above_most least most) else none
  validate float (request _ _ _ _ _) = none
  validate float (branch choices) = validate_choices float choices
  validate float (retry_on_error max_retries) = if max_retries == 0 then some no_retries else none
  validate float (loop iterations jump_back_idx) =
      if iterations == 0 then some no_iterations else none
  validate float finish = none

  -- The loop over the steps, from the index `idx` on.
  unfoldable pub first_invalid :
      Float F → (idx : ℕ) → List (ScenarioStep F) → Option (InvalidScenario F)
  unfolding validate
  first_invalid float idx [] = none
  first_invalid float idx (here ∷ rest) = elim (validate float here) [
    | some e ↦ some (step idx e)
    | none ↦ first_invalid float (suc idx) rest
  ]

  unfoldable pub new_scenario : Float F → String → List (ScenarioStep F) → Validated F
  unfolding first_invalid
  new_scenario float name steps = elim (first_invalid float 0 steps) [
    | some e ↦ err e
    | none ↦ ok (record { name = name; steps = steps })
  ]

  unfoldable pub len : Scenario F → ℕ
  len this = length this.steps

  unfoldable pub get_step : ℕ → List (ScenarioStep F) → Option (ScenarioStep F)
  get_step index [] = none
  get_step zero (here ∷ rest) = some here
  get_step (suc index) (here ∷ rest) = get_step index rest

  unfoldable pub step_at : Scenario F → (index : ℕ) → Option (ScenarioStep F)
  unfolding get_step
  step_at this index = get_step index this.steps
