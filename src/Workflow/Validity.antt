-- ===== src/Workflow/Validity.antt =====
-- The validators of `WorkflowState` never refuse what `transition_workflow` builds.
use file_nest.Base.{
  ◌+◌, ◌≡◌, ◌≢◌, inl, inr, refl, Bool, true, not, ◌&&◌, Result, ok, err, arith, ◌==◌, Result-cases,
  Bool-cases, ap, ◌∙◌, is_some, is_none,
}
use file_nest.OperationPlan.{OperationPlan}
use file_nest.Workflow.{
  WorkflowState, WorkflowEvent, WorkflowError, validation_error, workflow_mismatch,
  event_sequence_mismatch, validate_state, validate_event, is_optional_code, next_status, next_plan,
  transition_workflow, is_waiting, is_failed, Next, validate_replacement_plan,
}

abbrev pub IsValid : WorkflowState → Type 0
IsValid state = validate_state state ≡ ok state

abbrev pub IsValidEvent : WorkflowEvent → Type 0
IsValidEvent event = validate_event event ≡ ok event

-- what the validator asks of the fields that a transition computes
abbrev fits : Next → Bool
fits next =
    is_optional_code next.1
    && is_optional_code next.2
    && not (is_waiting next.0 && is_none next.1)
    && not (not (is_waiting next.0) && is_some next.1)
    && not (is_failed next.0 && is_none next.2)
    && not (not (is_failed next.0) && is_some next.2)

next_status-fits :
    (state : WorkflowState) (event : WorkflowEvent) (next : Next)
    → IsValid state
    → IsValidEvent event
    → next_status state event ≡ ok next
    → fits next ≡ true
unfolding next_status validate_state validate_event is_optional_code
next_status-fits state event next v w h = ground arith

fits-IsValid :
    (state : WorkflowState)
    → fits (state.status, state.wait_reason_code, state.error_code) ≡ true
    → IsValid state
unfolding validate_state
fits-IsValid state h = ground arith

next_plan-no_validation_error :
    (state : WorkflowState) (event : WorkflowEvent) → next_plan state event ≢ err validation_error
unfolding next_plan validate_replacement_plan
next_plan-no_validation_error state event h = ground arith

next_status-no_validation_error :
    (state : WorkflowState) (event : WorkflowEvent) → next_status state event ≢ err validation_error
unfolding next_status
next_status-no_validation_error state event h = ground arith

-- An outcome of a transition: a state that passes its own validators, or one of the three transition
-- errors.
pub data Outcome (result : Result WorkflowError WorkflowState) : Type 0 where
  moved : (t : WorkflowState) → result ≡ ok t → IsValid t → Outcome result
  refused : (x : WorkflowError) → result ≡ err x → x ≢ validation_error → Outcome result

built : WorkflowState → WorkflowEvent → OperationPlan → Next → WorkflowState
built state event plan next = record {
  workflow_id = state.workflow_id;
  operation_plan = plan;
  status = next.0;
  revision = event.sequence_no;
  wait_reason_code = next.1;
  error_code = next.2;
}

-- A valid event on a valid state gives a valid state or a transition error, never the ValidationError of
-- the state that is built.
pub transition_workflow-Outcome :
    (state : WorkflowState) (event : WorkflowEvent)
    → IsValid state
    → IsValidEvent event
    → Outcome (transition_workflow state event)
unfolding transition_workflow built
transition_workflow-Outcome state event v w =
    elim (Bool-cases (event.workflow_id == state.workflow_id)) [
      | inr e ↦ refused workflow_mismatch (rw e refl) (λ p. cc)
      | inl e ↦ elim (Bool-cases (event.sequence_no == state.revision + 1)) [
        | inr f ↦ refused event_sequence_mismatch (rw (e, f) refl) (λ p. cc)
        | inl f ↦ elim (Result-cases (next_status state event)) [
          | inr (x, g) ↦
              refused x (rw (e, f, g) refl)
                (λ p. next_status-no_validation_error state event (g ∙ ap err p))
          | inl (next, g) ↦ elim (Result-cases (next_plan state event)) [
            | inr (x, k) ↦
                refused x (rw (e, f, g, k) refl)
                  (λ p. next_plan-no_validation_error state event (k ∙ ap err p))
            | inl (plan, k) ↦
                let valid =
                  fits-IsValid (built state event plan next)
                    (next_status-fits state event next v w g) in
                moved (built state event plan next) (rw (e, f, g, k) valid) valid
          ]
        ]
      ]
    ]

pub transition-IsValid :
    (s t : WorkflowState) (e : WorkflowEvent) → transition_workflow s e ≡ ok t → IsValid t
unfolding transition_workflow validate_state
transition-IsValid s t e h = ground arith
