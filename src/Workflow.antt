-- ===== src/Workflow.antt =====
-- backend/app/workflow.py: the pausable workflow of one plan, and `_apply_event` of
-- backend/app/workflow_graph.py, the node that the checkpointed graph runs.
pub mod Validity
pub mod History
pub mod Node
pub mod Guard
mod Examples
use file_nest.Base.{
  ℕ, ◌+◌, Bool, true, false, not, ◌&&◌, ◌||◌, Option, none, some, List, [], ◌∷◌, map, Result, ok,
  err, ◌>>=◌, ◌>>◌, raise_if, ◌==◌, leb, is_some, is_none, is_subset, if◌then◌else◌,
}
use file_nest.FilePath.{Text, text_eq}
use file_nest.OperationPlan.{OperationPlan, OperationPlanItem, is_code_text}

pub data WorkflowStatus : Type 0 where
  ready waiting completed failed cancelled : WorkflowStatus

pub data WorkflowEventKind : Type 0 where
  pause_requested resume_requested plan_replaced : WorkflowEventKind
  workflow_completed workflow_failed workflow_cancelled : WorkflowEventKind

-- `WorkflowTransitionErrorCode`, and pydantic's ValidationError
pub data WorkflowError : Type 0 where
  workflow_mismatch event_sequence_mismatch invalid_transition : WorkflowError
  validation_error : WorkflowError

pub record WorkflowState : Type 0 where
  pub workflow_id : ℕ
  pub operation_plan : OperationPlan
  pub status : WorkflowStatus
  pub revision : ℕ
  pub wait_reason_code : Option Text
  pub error_code : Option Text

pub record WorkflowEvent : Type 0 where
  pub workflow_id : ℕ
  pub sequence_no : ℕ
  pub kind : WorkflowEventKind
  pub reason_code : Option Text
  pub error_code : Option Text
  pub replacement_plan : Option OperationPlan

abbrev pub is_waiting : WorkflowStatus → Bool
is_waiting waiting = true
is_waiting _ = false

abbrev pub is_failed : WorkflowStatus → Bool
is_failed failed = true
is_failed _ = false

-- `str | None = Field(pattern=r"^[a-z][a-z0-9_]{0,63}$")`
unfoldable pub is_optional_code : Option Text → Bool
is_optional_code none = true
is_optional_code (some code) = is_code_text 63 code

-- the fields' patterns and `validate_status_details`
unfoldable pub validate_state : WorkflowState → Result WorkflowError WorkflowState
validate_state state = do
  raise_if (not (is_optional_code state.wait_reason_code)) validation_error
  raise_if (not (is_optional_code state.error_code)) validation_error
  raise_if (is_waiting state.status && is_none state.wait_reason_code) validation_error
  raise_if (not (is_waiting state.status) && is_some state.wait_reason_code) validation_error
  raise_if (is_failed state.status && is_none state.error_code) validation_error
  raise_if (not (is_failed state.status) && is_some state.error_code) validation_error
  ok state

abbrev pub is_pause : WorkflowEventKind → Bool
is_pause pause_requested = true
is_pause _ = false

abbrev pub is_failure : WorkflowEventKind → Bool
is_failure workflow_failed = true
is_failure _ = false

abbrev pub is_replacement : WorkflowEventKind → Bool
is_replacement plan_replaced = true
is_replacement _ = false

-- the fields' patterns and `validate_event_details`
unfoldable pub validate_event : WorkflowEvent → Result WorkflowError WorkflowEvent
validate_event event = do
  raise_if (not (leb 1 event.sequence_no)) validation_error
  raise_if (not (is_optional_code event.reason_code)) validation_error
  raise_if (not (is_optional_code event.error_code)) validation_error
  raise_if (is_pause event.kind && is_none event.reason_code) validation_error
  raise_if (not (is_pause event.kind) && is_some event.reason_code) validation_error
  raise_if (is_failure event.kind && is_none event.error_code) validation_error
  raise_if (not (is_failure event.kind) && is_some event.error_code) validation_error
  raise_if (is_replacement event.kind && is_none event.replacement_plan) validation_error
  raise_if (not (is_replacement event.kind) && is_some event.replacement_plan) validation_error
  ok event

abbrev pub Next : Type 0
Next = WorkflowStatus × Option Text × Option Text

-- the chain of tests of `_next_status`, by the status and the kind
unfoldable pub dispatch :
    WorkflowStatus → WorkflowEventKind → WorkflowState → WorkflowEvent → Result WorkflowError Next
dispatch ready pause_requested state event = ok (waiting, event.reason_code, none)
dispatch waiting resume_requested state event = ok (ready, none, none)
dispatch waiting plan_replaced state event = ok (waiting, state.wait_reason_code, none)
dispatch ready workflow_completed state event = ok (completed, none, none)
dispatch ready workflow_failed state event = ok (failed, none, event.error_code)
dispatch waiting workflow_failed state event = ok (failed, none, event.error_code)
dispatch waiting workflow_cancelled state event = ok (cancelled, none, none)
dispatch _ _ state event = err invalid_transition

unfoldable pub next_status : WorkflowState → WorkflowEvent → Result WorkflowError Next
unfolding dispatch
next_status state event = dispatch state.status event.kind state event

-- the pair of an operation that a replacement must keep
abbrev pub Source : Type 0
Source = ℕ × Text

unfoldable pub same_source : Source → Source → Bool
same_source a b = a.0 == b.0 && text_eq a.1 b.1

abbrev pub sources : OperationPlan → List Source
sources plan =
    map
      (λ (operation : OperationPlanItem).
        (operation.source_file_id, operation.source_relative_path))
      plan.operations

-- equality of the two sets of sources
unfoldable pub same_sources : OperationPlan → OperationPlan → Bool
same_sources a b =
    is_subset same_source (sources a) (sources b) && is_subset same_source (sources b) (sources a)

unfoldable pub validate_replacement_plan :
    OperationPlan → OperationPlan → Result WorkflowError (Unit {0})
validate_replacement_plan current_plan replacement_plan =
    raise_if
      (replacement_plan.plan_id == current_plan.plan_id
        || not (replacement_plan.workspace_id == current_plan.workspace_id)
        || not (same_sources replacement_plan current_plan))
      invalid_transition

-- the plan after the event: the replacement's branch of `transition_workflow`
unfoldable pub next_plan : WorkflowState → WorkflowEvent → Result WorkflowError OperationPlan
next_plan state event =
    if is_replacement event.kind
    then elim event.replacement_plan [
      | none ↦ err invalid_transition
      | some replacement_plan ↦ do
        validate_replacement_plan state.operation_plan replacement_plan
        ok replacement_plan
    ]
    else ok state.operation_plan

unfoldable pub transition_workflow :
    WorkflowState → WorkflowEvent → Result WorkflowError WorkflowState
transition_workflow state event = do
  raise_if (not (event.workflow_id == state.workflow_id)) workflow_mismatch
  raise_if (not (event.sequence_no == state.revision + 1)) event_sequence_mismatch
  next ← next_status state event
  operation_plan ← next_plan state event
  validate_state (record {
    workflow_id = state.workflow_id;
    operation_plan = operation_plan;
    status = next.0;
    revision = event.sequence_no;
    wait_reason_code = next.1;
    error_code = next.2;
  })
