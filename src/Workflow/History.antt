-- ===== src/Workflow/History.antt =====
-- What a workflow keeps over any sequence of events.
use mathlib.Core.List.{Memᴰ}
use mathlib.Core.Path.{subst}
use file_nest.Base.{
  sym, ap, ok-injective, map, Result-cases, ◌≢◌, ◌+◌, ◌≡◌, ◌↔◌, ◌⊎◌, inl, inr, refl, ◌∙◌, Bool,
  true, false, List, [], ◌∷◌, Result, ok, err, ◌>>=◌, arith, >>=-eq-ok, length, is_subset_refl,
  is_subset_trans,
}
use file_nest.FilePath.Laws.{text_eq_iff}
use file_nest.OperationPlan.{OperationPlan}
use file_nest.Workflow.{
  WorkflowState, WorkflowEvent, WorkflowError, WorkflowStatus, WorkflowEventKind, waiting,
  completed, failed, cancelled, resume_requested, Source, same_source, sources, same_sources,
  validate_replacement_plan, next_status, next_plan, validate_state, transition_workflow, dispatch,
}

same_source_iff : (a b : Source) → (same_source a b ≡ true) ↔ (a ≡ b)
unfolding same_source
same_source_iff a b = ground (arith, text_eq_iff a.1 b.1)

same_sources_refl : (a : OperationPlan) → same_sources a a ≡ true
unfolding same_sources
same_sources_refl a = rw (is_subset_refl same_source same_source_iff (sources a)) refl

same_sources_trans :
    (a b c : OperationPlan)
    → same_sources a b ≡ true
    → same_sources b c ≡ true
    → same_sources a c ≡ true
unfolding same_sources
same_sources_trans a b c h k = ground (
  arith,
  is_subset_trans same_source same_source_iff (sources a) (sources b) (sources c),
  is_subset_trans same_source same_source_iff (sources c) (sources b) (sources a),
)

-- What no event changes: the workflow, the workspace, and the set of source files with their paths.
pub record Keeps (s t : WorkflowState) : Type 0 where
  pub workflow : t.workflow_id ≡ s.workflow_id
  pub workspace : t.operation_plan.workspace_id ≡ s.operation_plan.workspace_id
  pub source_files : same_sources t.operation_plan s.operation_plan ≡ true

next_plan-keeps :
    (s : WorkflowState) (e : WorkflowEvent) (plan : OperationPlan)
    → next_plan s e ≡ ok plan
    → (plan.workspace_id ≡ s.operation_plan.workspace_id)
      × (same_sources plan s.operation_plan ≡ true)
unfolding next_plan validate_replacement_plan
next_plan-keeps s e plan h = (ground arith, ground (arith, same_sources_refl s.operation_plan))

-- the parts of a transition that returned
record Step (s t : WorkflowState) (e : WorkflowEvent) : Type 0 where
  own : t.workflow_id ≡ s.workflow_id
  counted : t.revision ≡ s.revision + 1
  plan : next_plan s e ≡ ok t.operation_plan
  status : next_status s e ≡ ok (t.status, t.wait_reason_code, t.error_code)

Step-of_transition :
    (s t : WorkflowState) (e : WorkflowEvent) → transition_workflow s e ≡ ok t → Step s t e
unfolding transition_workflow validate_state
Step-of_transition s t e h = record {
  own = ground arith;
  counted = ground arith;
  plan = ground arith;
  status = ground arith;
}

pub transition-next_plan :
    (s t : WorkflowState) (e : WorkflowEvent)
    → transition_workflow s e ≡ ok t
    → next_plan s e ≡ ok t.operation_plan
transition-next_plan s t e h = (Step-of_transition s t e h).plan

step-Keeps : (s t : WorkflowState) (e : WorkflowEvent) → transition_workflow s e ≡ ok t → Keeps s t
step-Keeps s t e h =
    let step = Step-of_transition s t e h in
    let (workspace, files) = next_plan-keeps s e t.operation_plan step.plan in
    record { workflow = step.own; workspace = workspace; source_files = files }

Keeps-refl : (s : WorkflowState) → Keeps s s
Keeps-refl s = record {
  workflow = refl;
  workspace = refl;
  source_files = same_sources_refl s.operation_plan;
}

Keeps-trans : (s t u : WorkflowState) → Keeps s t → Keeps t u → Keeps s u
Keeps-trans s t u h k = record {
  workflow = k.workflow ∙ h.workflow;
  workspace = k.workspace ∙ h.workspace;
  source_files =
      same_sources_trans u.operation_plan t.operation_plan s.operation_plan k.source_files
        h.source_files;
}

-- Successive events, each applied to the state that the last one left.
abbrev pub run : WorkflowState → List WorkflowEvent → Result WorkflowError WorkflowState
run s [] = ok s
run s (e ∷ es) = do t ← transition_workflow s e; run t es

-- After any accepted sequence of events, replacements of the plan included, the workflow, its workspace
-- and its set of source files with their paths are those of the start, and the revision has grown by
-- the number of events.
pub run-Keeps :
    (s t : WorkflowState) (es : List WorkflowEvent)
    → run s es ≡ ok t
    → Keeps s t × (t.revision ≡ s.revision + length es)
run-Keeps s t [] h = (subst (Keeps s) (ok-injective h) (Keeps-refl s), ground arith)
run-Keeps s t (e ∷ es) h =
    let (u, first, rest) = >>=-eq-ok (transition_workflow s e) _ h in
    let (kept, counted) = run-Keeps u t es rest in
    (
      Keeps-trans s u t (step-Keeps s u e first) kept,
      omega (arith, (Step-of_transition s u e first).counted),
    )

abbrev pub is_closed : WorkflowStatus → Bool
is_closed completed = true
is_closed failed = true
is_closed cancelled = true
is_closed _ = false

-- A completed, failed or cancelled workflow accepts no event, valid or not.
pub closed_refuses :
    (s : WorkflowState) (e : WorkflowEvent)
    → is_closed s.status ≡ true
    → (x : WorkflowError) × (transition_workflow s e ≡ err x)
closed_refuses s e c = elim (Result-cases (transition_workflow s e)) [
  | inr raised ↦ raised
  | inl (t, h) ↦
      absurd (unfold next_status dispatch in ground (arith, (Step-of_transition s t e h).status))
]

completed_step :
    (s t : WorkflowState) (e : WorkflowEvent)
    → transition_workflow s e ≡ ok t
    → s.status ≡ waiting
    → (t.status ≡ waiting)
      ⊎ (e.kind ≡ resume_requested)
      ⊎ (is_closed t.status ≡ true) × (t.status ≢ completed)
unfolding next_status
completed_step s t e h w = ground (arith, (Step-of_transition s t e h).status)

abbrev pub kinds : List WorkflowEvent → List WorkflowEventKind
kinds es = map (λ (e : WorkflowEvent). e.kind) es

closed-run :
    (s t : WorkflowState) (es : List WorkflowEvent)
    → is_closed s.status ≡ true
    → run s es ≡ ok t
    → s ≡ t
closed-run s t [] c h = ok-injective h
closed-run s t (e ∷ es) c h =
    let (u, first, rest) = >>=-eq-ok (transition_workflow s e) _ h in
    let (x, raised) = closed_refuses s e c in absurd (cc (first, raised))

-- An accepted sequence of events that takes a waiting workflow to `completed` has a `resume_requested`.
pub completion_needs_resume :
    (s t : WorkflowState) (es : List WorkflowEvent)
    → s.status ≡ waiting
    → run s es ≡ ok t
    → t.status ≡ completed
    → Memᴰ resume_requested (kinds es)
completion_needs_resume s t [] w h c =
    absurd (cc (ap (λ (x : WorkflowState). x.status) (ok-injective h), w, c))
completion_needs_resume s t (e ∷ es) w h c =
    let (u, first, rest) = >>=-eq-ok (transition_workflow s e) _ h in
    elim (completed_step s u e first w) [
      | inl still ↦ Memᴰ.tail (completion_needs_resume u t es still rest c)
      | inr (inl resumed) ↦ Memᴰ.head (sym resumed)
      | inr (inr stopped) ↦
          absurd (
            stopped.1 (ap (λ (x : WorkflowState). x.status) (closed-run u t es stopped.0 rest) ∙ c))
    ]
