-- ===== src/Approval/Decision.antt =====
-- `_transition_approval_request` of backend/app/services.py and the four decisions that call it. A call
-- takes the tables that its first query has seen and those that its UPDATE finds; the call is one
-- transaction, so a rollback leaves the latter as they were.
use file_nest.Base.{
  ℕ, Bool, true, false, not, ◌&&◌, Option, none, some, [], ◌∷◌, ◌++◌, ◌==◌, if◌then◌else◌, Result,
  ok, err, ◌>>=◌,
}
use file_nest.OperationStatus.{OperationStatus}
use file_nest.OperationStatus as Operation
use file_nest.Approval.Records.{
  ApprovalStatus, waiting, approved, rejected, cancelled, decided, superseded, ApprovalAction,
  approve, edit, reject, cancel, ApprovalRequest, ApprovalAuditEvent, Tables, ApprovalError,
  not_found, not_waiting, plan_mismatch, plan_unchanged, state_changed, is_waiting_status,
  find_approval, compare_and_set_approval_request, sync_operation_plan_status,
  sync_operation_status,
}

abbrev pub Answer : Type 0
Answer = Result ApprovalError ApprovalRequest × Tables

unfoldable pub is_repeated_approval : ApprovalRequest → ApprovalAction → ℕ → Bool
is_repeated_approval a action expected_plan_id =
    (elim action [
      | approve ↦ elim a.status [ approved ↦ true | _ ↦ false ]
      | cancel ↦ elim a.status [ cancelled ↦ true | _ ↦ false ]
      | _ ↦ false
    ])
    && a.plan_id == expected_plan_id

-- `OperationStatus(next_status)`
abbrev pub operation_status : ApprovalStatus → OperationStatus
operation_status waiting = Operation.waiting_approval
operation_status approved = Operation.approved
operation_status rejected = Operation.rejected
operation_status cancelled = Operation.cancelled

-- the UPDATE has matched no row: the answer by what is there now
unfoldable pub lost_update :
    ApprovalAction → ℕ → Option ApprovalRequest → Result ApprovalError ApprovalRequest
lost_update action expected_plan_id none = err state_changed
lost_update action expected_plan_id (some current) =
    if not (current.plan_id == expected_plan_id)
    then err plan_mismatch
    else if is_repeated_approval current action expected_plan_id
    then ok current
    else err state_changed

-- the statuses of the plans
unfoldable pub sync_plans : ℕ → ApprovalStatus → ℕ → Tables → Result ApprovalError Tables
sync_plans expected_plan_id next_status next_plan_id db =
    if next_plan_id == expected_plan_id
    then sync_operation_plan_status expected_plan_id (decided next_status) db
    else sync_operation_plan_status expected_plan_id superseded db
      >>= sync_operation_plan_status next_plan_id (decided waiting)

abbrev pub new_audit_event : ApprovalRequest → ApprovalAction → ApprovalRequest → ApprovalAuditEvent
new_audit_event a action new = record {
  approval_request_id = a.id;
  action = action;
  previous_status = a.status;
  next_status = new.status;
  previous_plan_id = a.plan_id;
  next_plan_id = new.plan_id;
}

-- what follows the UPDATE, up to the commit
unfoldable pub write_decision :
    Tables → ApprovalRequest → ApprovalAction → ApprovalRequest → Tables → Answer
write_decision found a action new updated =
    elim (sync_plans a.plan_id new.status new.plan_id updated
      >>= sync_operation_status a.workflow_id (operation_status new.status) new.plan_id a.id) [
        | err e ↦ (err e, found)
        | ok db ↦ (ok new, record db { audit = db.audit ++ new_audit_event a action new ∷ [] })
      ]

-- the UPDATE and what follows it
unfoldable pub decide_waiting :
    Tables → ApprovalRequest → ℕ → ℕ → ApprovalAction → ApprovalStatus → ℕ → Answer
decide_waiting found a workflow_id expected_plan_id action next_status next_plan_id =
    elim (compare_and_set_approval_request workflow_id expected_plan_id next_status next_plan_id
      found) [
        | none ↦ (lost_update action expected_plan_id (find_approval workflow_id found), found)
        | some (new, updated) ↦ write_decision found a action new updated
      ]

-- the guards, on the row that the first query has seen
unfoldable pub decide_seen :
    Tables → Option ApprovalRequest → ℕ → ℕ → ApprovalAction → ApprovalStatus → ℕ → Answer
decide_seen found none workflow_id expected_plan_id action next_status next_plan_id =
    (err not_found, found)
decide_seen found (some a) workflow_id expected_plan_id action next_status next_plan_id =
    if not (a.plan_id == expected_plan_id)
    then (err plan_mismatch, found)
    else if is_repeated_approval a action expected_plan_id
    then (ok a, found)
    else if not (is_waiting_status a.status)
    then (err not_waiting, found)
    else decide_waiting found a workflow_id expected_plan_id action next_status next_plan_id

unfoldable pub transition_approval_request :
    Tables → Tables → ℕ → ℕ → ApprovalAction → ApprovalStatus → ℕ → Answer
transition_approval_request seen found workflow_id expected_plan_id action next_status
      next_plan_id =
    decide_seen found (find_approval workflow_id seen) workflow_id expected_plan_id action
      next_status next_plan_id

unfoldable pub approve_operation_plan : Tables → Tables → ℕ → ℕ → Answer
approve_operation_plan seen found workflow_id expected_plan_id =
    transition_approval_request seen found workflow_id expected_plan_id approve approved
      expected_plan_id

unfoldable pub edit_operation_plan : Tables → Tables → ℕ → ℕ → ℕ → Answer
edit_operation_plan seen found workflow_id expected_plan_id replacement_plan_id =
    if replacement_plan_id == expected_plan_id
    then (err plan_unchanged, found)
    else transition_approval_request seen found workflow_id expected_plan_id edit waiting
        replacement_plan_id

unfoldable pub reject_operation_plan : Tables → Tables → ℕ → ℕ → Answer
reject_operation_plan seen found workflow_id expected_plan_id =
    transition_approval_request seen found workflow_id expected_plan_id reject rejected
      expected_plan_id

unfoldable pub cancel_operation_plan : Tables → Tables → ℕ → ℕ → Answer
cancel_operation_plan seen found workflow_id expected_plan_id =
    transition_approval_request seen found workflow_id expected_plan_id cancel cancelled
      expected_plan_id
