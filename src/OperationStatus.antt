-- ===== src/OperationStatus.antt =====
-- backend/app/operation_status.py: the statuses of one operation, their graph, and the projections
-- of the other status vocabularies. A `StrEnum` member is passed as its text, as Python does.
pub mod Graph
mod Examples
use mathlib.Core.Bool.{decide}
use file_nest.Base.{
  String, Bool, true, false, Option, none, some, List, [], ◌∷◌, Result, ok, err, ◌>>=◌, ◌>>◌,
  raise_if, any, not, ◌&&◌, lookup, str_eq, if◌then◌else◌,
}

pub data OperationStatus : Type 0 where
  proposed waiting_approval approved rejected cancelled executing : OperationStatus
  partial_failed completed undoing undone compensated failed : OperationStatus

pub OperationStatus-discrete : Discrete OperationStatus
OperationStatus-discrete = hlevel

unfoldable pub same_status : OperationStatus → OperationStatus → Bool
unfolding OperationStatus-discrete decide
same_status a b = decide (OperationStatus-discrete a b)

pub data StatusError : Type 0 where
  unknown_status : String → StatusError
  invalid_transition : OperationStatus → OperationStatus → StatusError

-- `OperationStatus.value`
abbrev pub value : OperationStatus → String
value proposed = "PROPOSED"
value waiting_approval = "WAITING_APPROVAL"
value approved = "APPROVED"
value rejected = "REJECTED"
value cancelled = "CANCELLED"
value executing = "EXECUTING"
value partial_failed = "PARTIAL_FAILED"
value completed = "COMPLETED"
value undoing = "UNDOING"
value undone = "UNDONE"
value compensated = "COMPENSATED"
value failed = "FAILED"

-- the members in the order of the class
abbrev pub members : List OperationStatus
members =
    proposed ∷ waiting_approval ∷ approved ∷ rejected ∷ cancelled ∷ executing ∷ partial_failed
    ∷ completed ∷ undoing ∷ undone ∷ compensated ∷ failed ∷ []

-- `OperationStatus(text)`: the member with this value
abbrev pub member_of_value : String → List OperationStatus → Option OperationStatus
member_of_value text [] = none
member_of_value text (s ∷ rest) =
    if str_eq text (value s) then some s else member_of_value text rest

unfoldable pub coerce_in : String → List OperationStatus → Result StatusError OperationStatus
coerce_in text known = elim (member_of_value text known) [
  | none ↦ err (unknown_status text)
  | some s ↦ ok s
]

unfoldable pub coerce_status : String → Result StatusError OperationStatus
unfolding coerce_in
coerce_status text = coerce_in text members

-- OPERATION_STATUS_TRANSITIONS
abbrev pub operation_status_transitions : OperationStatus → List OperationStatus
operation_status_transitions proposed = waiting_approval ∷ cancelled ∷ []
operation_status_transitions waiting_approval = approved ∷ rejected ∷ cancelled ∷ []
operation_status_transitions approved = executing ∷ cancelled ∷ []
operation_status_transitions rejected = []
operation_status_transitions cancelled = []
operation_status_transitions executing = partial_failed ∷ completed ∷ failed ∷ []
operation_status_transitions partial_failed = executing ∷ undoing ∷ failed ∷ []
operation_status_transitions completed = undoing ∷ []
operation_status_transitions undoing = undone ∷ compensated ∷ failed ∷ []
operation_status_transitions undone = []
operation_status_transitions compensated = []
operation_status_transitions failed = executing ∷ []

abbrev pub is_empty : List OperationStatus → Bool
is_empty [] = true
is_empty (_ ∷ _) = false

-- TERMINAL_OPERATION_STATUSES
abbrev pub terminal_operation_statuses : List OperationStatus
terminal_operation_statuses = rejected ∷ cancelled ∷ undone ∷ compensated ∷ []

unfoldable pub is_member : OperationStatus → List OperationStatus → Bool
unfolding same_status
is_member s = any (same_status s)

unfoldable pub is_terminal_operation_status : String → Result StatusError Bool
unfolding is_member
is_terminal_operation_status status = do
  normalized_status ← coerce_status status
  ok (is_member normalized_status terminal_operation_statuses)

unfoldable pub transition_operation_status : String → String → Result StatusError OperationStatus
unfolding is_member
transition_operation_status current_status next_status = do
  current ← coerce_status current_status
  next_value ← coerce_status next_status
  raise_if (not (is_member next_value (operation_status_transitions current)))
      (invalid_transition current next_value)
  ok next_value

-- A dict of statuses, with `KeyError` turned into `ValueError`.
unfoldable pub map_status :
    List (String × OperationStatus) → String → Result StatusError OperationStatus
map_status table status = elim (lookup status table) [
  | none ↦ err (unknown_status status)
  | some s ↦ ok s
]

abbrev pub workflow_status_to_operation_status : List (String × OperationStatus)
workflow_status_to_operation_status =
    ("ready", approved)
    ∷ ("waiting", waiting_approval)
    ∷ ("completed", completed)
    ∷ ("failed", failed)
    ∷ ("cancelled", cancelled)
    ∷ []

abbrev pub approval_status_to_operation_status : List (String × OperationStatus)
approval_status_to_operation_status =
    ("WAITING_APPROVAL", waiting_approval)
    ∷ ("APPROVED", approved)
    ∷ ("REJECTED", rejected)
    ∷ ("CANCELLED", cancelled)
    ∷ []

abbrev pub agent_run_status_to_operation_status : List (String × OperationStatus)
agent_run_status_to_operation_status =
    ("completed", completed)
    ∷ ("cancelled", cancelled)
    ∷ ("failed", failed)
    ∷ ("timed_out", failed)
    ∷ ("max_steps_reached", failed)
    ∷ []

abbrev pub is_code : Option String → String → Bool
is_code none code = false
is_code (some text) code = str_eq text code

unfoldable pub map_workflow_status_to_operation_status :
    String → Option String → Result StatusError OperationStatus
unfolding map_status
map_workflow_status_to_operation_status status error_code =
    if str_eq status "failed" && is_code error_code "human_rejected"
    then ok rejected
    else map_status workflow_status_to_operation_status status

unfoldable pub map_approval_status_to_operation_status : String → Result StatusError OperationStatus
unfolding map_status
map_approval_status_to_operation_status = map_status approval_status_to_operation_status

unfoldable pub map_agent_run_status_to_operation_status :
    String → Result StatusError OperationStatus
unfolding map_status
map_agent_run_status_to_operation_status = map_status agent_run_status_to_operation_status
