-- ===== src/Runs/Steps.antt =====
-- requiredUncheckedSteps of src/completion.js: the steps of a card that block its completion.
use fizzy_symphony.Base.{
  Bool, false, ◌||◌, Option, List, [], String, if◌then◌else◌, get_or, or_else, filter,
}

-- A step's flags, each under every name that is read.
pub record CardStep : Type 0 where
  pub title : String
  pub checked : Option Bool
  pub is_checked : Option Bool
  pub completed : Option Bool
  pub complete : Option Bool
  pub required : Option Bool
  pub required_for_completion : Option Bool
  pub blocks_completion : Option Bool
  pub completion_blocker : Option Bool

-- The flags of the route, of its `completion`, of the workflow's `completion` and of its front
-- matter.
pub record StepPolicy : Type 0 where
  pub route_required : Option Bool  -- route.required_steps_block_completion
  pub route_blockers : Option Bool  -- route.required_step_blockers
  pub completion_required : Option Bool
  pub completion_block_on : Option Bool  -- block_on_unchecked_required_steps
  pub workflow_required : Option Bool
  pub workflow_block_on : Option Bool
  pub front_matter_required : Option Bool
  pub route_unchecked : Option Bool  -- unchecked_steps_block_completion
  pub completion_unchecked : Option Bool
  pub workflow_unchecked : Option Bool
  pub front_matter_unchecked : Option Bool

unfoldable pub is_enabled : StepPolicy → Bool
is_enabled p =
    get_or
      (or_else p.route_required (
        or_else p.route_blockers (
          or_else p.completion_required (
            or_else p.completion_block_on (
              or_else p.workflow_required (or_else p.workflow_block_on p.front_matter_required))))))
      false

unfoldable pub block_all_unchecked : StepPolicy → Bool
block_all_unchecked p =
    get_or
      (or_else p.route_unchecked
        (or_else p.completion_unchecked (or_else p.workflow_unchecked p.front_matter_unchecked)))
      false

unfoldable pub is_step_checked : CardStep → Bool
is_step_checked s =
    get_or (or_else s.checked (or_else s.is_checked (or_else s.completed s.complete))) false

unfoldable pub is_step_required : CardStep → Bool
is_step_required s =
    get_or
      (or_else s.required
        (or_else s.required_for_completion (or_else s.blocks_completion s.completion_blocker)))
      false

unfoldable pub blocks : StepPolicy → CardStep → Bool
unfolding block_all_unchecked is_step_checked is_step_required
blocks p s = if is_step_checked s then false else block_all_unchecked p || is_step_required s

unfoldable pub required_unchecked_steps : StepPolicy → List CardStep → List CardStep
unfolding is_enabled blocks
required_unchecked_steps p steps = if is_enabled p then filter (blocks p) steps else []
