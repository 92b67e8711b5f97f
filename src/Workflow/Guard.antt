-- ===== src/Workflow/Guard.antt =====
-- What the graph's node guarantees of the state that it stores.
use file_nest.Base.{
  ◌≡◌, refl, ap, ◌∙◌, true, Option, none, some, Result, ok, err, arith, Result-cases, inl, inr, ◌⊎◌,
}
use file_nest.OperationPlan.{OperationPlan, validate_plan}
use file_nest.Workflow.{
  WorkflowState, WorkflowEvent, WorkflowError, validate_state, validate_event, transition_workflow,
  next_plan,
}
use file_nest.Workflow.Validity.{transition-IsValid}
use file_nest.Workflow.History.{transition-next_plan}
use file_nest.Workflow.Node.{
  load_state, load_event, needs_validator, check_plan, apply_event, validate_optional_plan,
}

load_state-inverse :
    (s t : WorkflowState)
    → load_state s ≡ ok t
    → (t ≡ s) × (validate_plan s.operation_plan ≡ ok tt) × (validate_state s ≡ ok s)
unfolding load_state validate_state
load_state-inverse s t h = (ground arith, ground arith, ground arith)

load_event-inverse :
    (e f : WorkflowEvent)
    → load_event e ≡ ok f
    → (f ≡ e) × (validate_optional_plan e.replacement_plan ≡ ok tt)
unfolding load_event validate_event
load_event-inverse e f h = (ground arith, ground arith)

load_state_cases :
    (s : WorkflowState) → (load_state s ≡ ok s) ⊎ ((x : WorkflowError) × (load_state s ≡ err x))
unfolding load_state validate_state
load_state_cases s = elim (Result-cases (load_state s)) [
  | inl (t, e) ↦ inl (e ∙ ap ok (load_state-inverse s t e).0)
  | inr raised ↦ inr raised
]

load_event_cases :
    (e : WorkflowEvent) → (load_event e ≡ ok e) ⊎ ((x : WorkflowError) × (load_event e ≡ err x))
load_event_cases e = elim (Result-cases (load_event e)) [
  | inl (t, h) ↦ inl (h ∙ ap ok (load_event-inverse e t h).0)
  | inr raised ↦ inr raised
]

next_plan-validated :
    (s : WorkflowState) (e : WorkflowEvent) (plan : OperationPlan)
    → validate_plan s.operation_plan ≡ ok tt
    → validate_optional_plan e.replacement_plan ≡ ok tt
    → next_plan s e ≡ ok plan
    → validate_plan plan ≡ ok tt
unfolding next_plan
next_plan-validated s e plan h k m = ground arith

transition-load_state :
    (s t : WorkflowState) (e : WorkflowEvent)
    → load_state s ≡ ok s
    → load_event e ≡ ok e
    → transition_workflow s e ≡ ok t
    → load_state t ≡ ok t
transition-load_state s t e h k m =
    let plan =
      next_plan-validated s e t.operation_plan (load_state-inverse s s h).1
        (load_event-inverse e e k).1 (transition-next_plan s t e m) in
    unfold load_state in rw plan (transition-IsValid s t e m)

checked_plan {ℓ} :
    {E : Type ℓ} (validator : Option (OperationPlan → Result E (Unit {0}))) (plan : OperationPlan)
    → check_plan validator plan ≡ ok tt
    → (check : OperationPlan → Result E (Unit {0})) × (validator ≡ some check)
      × (check plan ≡ ok tt)
unfolding check_plan
checked_plan none plan h = absurd (cc h)
checked_plan (some check) plan h = (check, refl, ground arith)

module _ {ℓ} {E : Type ℓ} (validator : Option (OperationPlan → Result E (Unit {0}))) where
  -- what one returned call went through
  record Applied (saved next : WorkflowState) (sent : WorkflowEvent) : Type ℓ where
    state : load_state saved ≡ ok saved
    event : load_event sent ≡ ok sent
    moved : transition_workflow saved sent ≡ ok next
    checked : needs_validator sent.kind ≡ true → check_plan validator next.operation_plan ≡ ok tt

  applied :
      (saved next : WorkflowState) (sent : WorkflowEvent)
      → apply_event validator saved sent ≡ ok next
      → Applied saved next sent
  unfolding apply_event
  applied saved next sent h = record {
    state = ground (arith, load_state_cases saved);
    event = ground (arith, load_state_cases saved, load_event_cases sent);
    moved = ground (arith, load_state_cases saved, load_event_cases sent);
    checked = λ n. ground (arith, load_state_cases saved, load_event_cases sent);
  }

  -- The state that the node stores is that of the transition and loads again without an error. If the event
  -- completes the workflow or replaces its plan, a validator was given and accepted the stored plan.
  pub apply_event_sound :
      (saved next : WorkflowState) (sent : WorkflowEvent)
      → apply_event validator saved sent ≡ ok next
      → (transition_workflow saved sent ≡ ok next)
        × (load_state next ≡ ok next)
        × (needs_validator sent.kind ≡ true
            → (check : OperationPlan → Result E (Unit {0})) × (validator ≡ some check)
              × (check next.operation_plan ≡ ok tt))
  apply_event_sound saved next sent h =
      let done = applied saved next sent h in
      (
        done.moved,
        transition-load_state saved next sent done.state done.event done.moved,
        λ n. checked_plan validator next.operation_plan (done.checked n),
      )
