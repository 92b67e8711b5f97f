-- ===== src/Workflow/Node.antt =====
-- `_apply_event` of backend/app/workflow_graph.py: the node of the checkpointed graph. The validator
-- of plans is the caller's. What the graph hands over and stores is JSON, so states, events and
-- their plans are validated again when they are read.
use file_nest.Base.{
  Bool, true, false, Option, none, some, Result, ok, err, ◌>>=◌, ◌>>◌, if◌then◌else◌,
}
use file_nest.OperationPlan.{PlanError, OperationPlan, validate_plan}
use file_nest.Workflow.{
  WorkflowState, WorkflowEvent, WorkflowError, WorkflowEventKind, workflow_completed, plan_replaced,
  validation_error, validate_state, validate_event, transition_workflow,
}

pub data NodeError {ℓ} (E : Type ℓ) : Type ℓ where
  workflow_error : WorkflowError → NodeError E
  operation_plan_validator_required : NodeError E
  refused_plan : E → NodeError E

abbrev pub lift {ℓ} : {E : Type ℓ} {A : Type 0} → Result WorkflowError A → Result (NodeError E) A
lift (ok a) = ok a
lift (err x) = err (workflow_error x)

abbrev pub lift_plan : Result PlanError (Unit {0}) → Result WorkflowError (Unit {0})
lift_plan (ok u) = ok u
lift_plan (err x) = err validation_error

-- `WorkflowState.model_validate` of a dumped state
unfoldable pub load_state : WorkflowState → Result WorkflowError WorkflowState
load_state state = do lift_plan (validate_plan state.operation_plan); validate_state state

abbrev pub validate_optional_plan : Option OperationPlan → Result WorkflowError (Unit {0})
validate_optional_plan none = ok tt
validate_optional_plan (some plan) = lift_plan (validate_plan plan)

-- `WorkflowEvent.model_validate` of a dumped event
unfoldable pub load_event : WorkflowEvent → Result WorkflowError WorkflowEvent
load_event event = do validate_optional_plan event.replacement_plan; validate_event event

abbrev pub needs_validator : WorkflowEventKind → Bool
needs_validator workflow_completed = true
needs_validator plan_replaced = true
needs_validator _ = false

module _ {ℓ} {E : Type ℓ} where
  abbrev lift_refusal : Result E (Unit {0}) → Result (NodeError E) (Unit {0})
  lift_refusal (ok u) = ok u
  lift_refusal (err x) = err (refused_plan x)

  unfoldable pub check_plan :
      Option (OperationPlan → Result E (Unit {0})) → OperationPlan → Result (NodeError E) (Unit {0})
  check_plan none plan = err operation_plan_validator_required
  check_plan (some validator) plan = lift_refusal (validator plan)

  unfoldable pub apply_event :
      Option (OperationPlan → Result E (Unit {0}))
      → WorkflowState
      → WorkflowEvent
      → Result (NodeError E) WorkflowState
  apply_event operation_plan_validator saved sent = do
    workflow ← lift (load_state saved)
    event ← lift (load_event sent)
    next_workflow ← lift (transition_workflow workflow event)
    if needs_validator event.kind
        then check_plan operation_plan_validator next_workflow.operation_plan
        else ok tt
    ok next_workflow
