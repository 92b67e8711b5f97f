-- ===== src/OperationStatus/Examples.antt =====
-- Tests of the status graph, and its theorems at concrete statuses.
use mathlib.Core.List.{Memᴰ}
use file_nest.Base.{◌≡◌, ◌↔◌, refl, true, List, [], ◌∷◌, ok, err, some}
use file_nest.OperationStatus.{
  OperationStatus, waiting_approval, approved, rejected, executing, completed, undoing, undone,
  cancelled, unknown_status, invalid_transition, value, coerce_status, is_terminal_operation_status,
  transition_operation_status, map_workflow_status_to_operation_status,
}
use file_nest.OperationStatus.Graph.{
  has_side_effects, transition_all, coerce_status_iff, terminal_iff_stuck, side_effects_absorb,
  side_effects_need_approval, reaches_terminal,
}

unknown_text : transition_operation_status "APPROVED" "approved" ≡ err (unknown_status "approved")
unfolding transition_operation_status coerce_status
unknown_text = refl

executing_is_not_cancelled :
    transition_operation_status "EXECUTING" "CANCELLED"
    ≡ err (invalid_transition executing cancelled)
unfolding transition_operation_status coerce_status
executing_is_not_cancelled = refl

human_rejection :
    map_workflow_status_to_operation_status "failed" (some "human_rejected") ≡ ok rejected
unfolding map_workflow_status_to_operation_status
human_rejection = refl

undone_coerced : (coerce_status "UNDONE" ≡ ok undone) ↔ (◌≡◌ "UNDONE" (value undone))
undone_coerced = coerce_status_iff "UNDONE" undone

undone_is_stuck : (is_terminal_operation_status (value undone) ≡ ok true) ↔ (
    (n : OperationStatus)
    → transition_operation_status (value undone) (value n) ≡ err (invalid_transition undone n))
undone_is_stuck = terminal_iff_stuck undone

side_effects_absorb_example : has_side_effects undone ≡ true
unfolding transition_operation_status coerce_status
side_effects_absorb_example =
    side_effects_absorb executing undone (completed ∷ undoing ∷ undone ∷ []) refl refl

side_effects_need_approval_example :
    Memᴰ approved (waiting_approval ∷ approved ∷ executing ∷ completed ∷ [])
unfolding transition_operation_status coerce_status
side_effects_need_approval_example =
    side_effects_need_approval waiting_approval completed (approved ∷ executing ∷ completed ∷ [])
      refl refl refl

completed_can_end :
    (ns : List OperationStatus) × (t : OperationStatus) × (transition_all completed ns ≡ ok t)
    × (is_terminal_operation_status (value t) ≡ ok true)
completed_can_end = reaches_terminal completed
