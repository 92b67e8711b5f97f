-- ===== src/Workflow/Examples.antt =====
-- A workflow that is paused for approval, replanned, resumed and completed, and the theorems at it.
use mathlib.Core.List.{Memᴰ}
use file_nest.Base.{
  ◌+◌, ◌≡◌, refl, true, List, [], ◌∷◌, Option, some, none, Result, ok, err, length, codes,
  is_subset,
}
use file_nest.FilePath.{Text}
use file_nest.OperationPlan.{OperationPlan, is_code_text}
use file_nest.OperationPlan.Examples.{two_moves, tools}
use file_nest.Workflow.{
  WorkflowState, WorkflowEvent, WorkflowError, waiting, completed, resume_requested, plan_replaced,
  workflow_completed, validate_state, validate_event, is_optional_code, next_status, next_plan,
  validate_replacement_plan, same_sources, same_source, transition_workflow, invalid_transition,
}
use file_nest.Workflow.Validity.{Outcome, transition_workflow-Outcome}
use file_nest.Workflow.History.{
  Keeps, run, run-Keeps, closed_refuses, completion_needs_resume, kinds,
}
use file_nest.Workflow.Node.{
  load_state, load_event, needs_validator, check_plan, apply_event,
  operation_plan_validator_required,
}
use file_nest.Workflow.Guard.{apply_event_sound}

-- what a test of a transition computes with
runs : Unit {0}
unfolding tools transition_workflow next_status next_plan validate_replacement_plan same_sources
    same_source is_subset validate_state validate_event is_optional_code is_code_text load_state
    load_event check_plan apply_event
runs = tt

abbrev start : WorkflowState
start = record {
  workflow_id = 9;
  operation_plan = two_moves;
  status = waiting;
  revision = 1;
  wait_reason_code = some (codes "human_approval_required");
  error_code = none;
}

abbrev event : WorkflowEvent
event = record {
  workflow_id = 9;
  sequence_no = 2;
  kind = resume_requested;
  reason_code = none;
  error_code = none;
  replacement_plan = none;
}

abbrev replaced : WorkflowEvent
replaced = record event {
  kind = plan_replaced;
  replacement_plan = some (record two_moves { plan_id = 8 });
}

abbrev completion : WorkflowEvent
completion = record event { sequence_no = 4; kind = workflow_completed }

abbrev story : List WorkflowEvent
story = replaced ∷ record event { sequence_no = 3 } ∷ completion ∷ []

abbrev end : WorkflowState
end = record start {
  operation_plan = record two_moves { plan_id = 8 };
  status = completed;
  revision = 4;
  wait_reason_code = none;
}

story_completes : run start story ≡ ok end
unfolding runs
story_completes = refl

same_plan_refused :
    transition_workflow start
      (record event { kind = plan_replaced; replacement_plan = some two_moves })
    ≡ err invalid_transition
unfolding runs
same_plan_refused = refl

transition_workflow-Outcome_example : Outcome (transition_workflow start replaced)
unfolding runs
transition_workflow-Outcome_example = transition_workflow-Outcome start replaced refl refl

run-Keeps_example : Keeps start end × (end.revision ≡ start.revision + length story)
run-Keeps_example = run-Keeps start end story story_completes

closed_refuses_example : (x : WorkflowError) × (transition_workflow end completion ≡ err x)
closed_refuses_example = closed_refuses end completion refl

completion_needs_resume_example : Memᴰ resume_requested (kinds story)
completion_needs_resume_example = completion_needs_resume start end story refl story_completes refl

abbrev accept_all : Option (OperationPlan → Result Text (Unit {0}))
accept_all = some (λ plan. ok tt)

unguarded : apply_event {E = Text} none start replaced ≡ err operation_plan_validator_required
unfolding runs
unguarded = refl

abbrev replanned : WorkflowState
replanned = record start { operation_plan = record two_moves { plan_id = 8 }; revision = 2 }

apply_event_sound_example :
    (transition_workflow start replaced ≡ ok replanned)
    × (load_state replanned ≡ ok replanned)
    × (needs_validator replaced.kind ≡ true
        → (check : OperationPlan → Result Text (Unit {0})) × (accept_all ≡ some check)
          × (check replanned.operation_plan ≡ ok tt))
unfolding runs
apply_event_sound_example = apply_event_sound accept_all start replanned replaced refl
