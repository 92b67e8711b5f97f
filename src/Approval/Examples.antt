-- ===== src/Approval/Examples.antt =====
-- Decisions of backend/app/services.py on one plan, alone and against another session.
use file_nest.Base.{◌≡◌, refl, ◌⊎◌, true, none, some, [], ◌∷◌, ok, err}
use file_nest.OperationStatus.{
  same_status, transition_operation_status, coerce_status, waiting_approval,
}
use file_nest.OperationStatus as Operation
use file_nest.Approval.{
  ApprovalRequest, Tables, waiting, approved, superseded, decided, approve, state_changed,
  not_waiting, find_row, put_row, compare_and_set_approval_request, sync_operation_plan_status,
  next_operation_status, sync_operation_status, is_repeated_approval, lost_update, sync_plans,
  write_decision, decide_waiting, decide_seen, transition_approval_request, approve_operation_plan,
  edit_operation_plan, reject_operation_plan, cancel_operation_plan,
}
use file_nest.Approval.Final.{decided_is_final}
use file_nest.Approval.Recorded.{Recorded, decision-Recorded}

-- what a test of a decision computes with
runs : Unit {0}
unfolding same_status transition_operation_status coerce_status find_row put_row
    compare_and_set_approval_request sync_operation_plan_status next_operation_status
    sync_operation_status is_repeated_approval lost_update sync_plans write_decision decide_waiting
    decide_seen transition_approval_request approve_operation_plan edit_operation_plan
    reject_operation_plan cancel_operation_plan
runs = tt

abbrev request : ApprovalRequest
request = record { id = 5; workflow_id = 1; plan_id = 8; status = waiting }

abbrev tables : Tables
tables = record {
  approvals = request ∷ [];
  plans = (record { plan_id = 8; status = decided waiting }) ∷ [];
  operations =
      (record {
        workflow_id = 1;
        overall_status = waiting_approval;
        revision = 3;
        plan_id = 8;
        approval_id = none;
      })
      ∷ [];
  audit = [];
}

abbrev accepted : ApprovalRequest
accepted = record request { status = approved }

abbrev approved_tables : Tables
approved_tables = record {
  approvals = accepted ∷ [];
  plans = (record { plan_id = 8; status = decided approved }) ∷ [];
  operations =
      (record {
        workflow_id = 1;
        overall_status = Operation.approved;
        revision = 4;
        plan_id = 8;
        approval_id = some 5;
      })
      ∷ [];
  audit =
      (record {
        approval_request_id = 5;
        action = approve;
        previous_status = waiting;
        next_status = approved;
        previous_plan_id = 8;
        next_plan_id = 8;
      })
      ∷ [];
}

approved_once : approve_operation_plan tables tables 1 8 ≡ (ok accepted, approved_tables)
unfolding runs
approved_once = refl

-- a second approval changes nothing and answers the same
approved_twice :
    approve_operation_plan approved_tables approved_tables 1 8 ≡ (ok accepted, approved_tables)
unfolding runs
approved_twice = refl

-- a rejection that has read the tables before the approval was committed
rejected_too_late :
    reject_operation_plan tables approved_tables 1 8 ≡ (err state_changed, approved_tables)
unfolding runs
rejected_too_late = refl

cancelled_after :
    cancel_operation_plan approved_tables approved_tables 1 8 ≡ (err not_waiting, approved_tables)
unfolding runs
cancelled_after = refl

-- an edit supersedes the record of the plan
edited_plans :
    (edit_operation_plan tables tables 1 8 9).1.plans
    ≡ (record { plan_id = 8; status = superseded }) ∷ []
unfolding runs
edited_plans = refl

decided_is_final_example :
    ((approve_operation_plan tables approved_tables 1 8).1 ≡ approved_tables)
    × ((edit_operation_plan tables approved_tables 1 8 9).1 ≡ approved_tables)
    × ((reject_operation_plan tables approved_tables 1 8).1 ≡ approved_tables)
    × ((cancel_operation_plan tables approved_tables 1 8).1 ≡ approved_tables)
unfolding runs
decided_is_final_example = decided_is_final approved_tables 1 accepted refl refl tables 8 9

transition_approved :
    transition_approval_request tables tables 1 8 approve approved 8
    ≡ (ok accepted, approved_tables)
unfolding runs
transition_approved = refl

decision-Recorded_example :
    ((approved_tables ≡ tables) × (is_repeated_approval accepted approve 8 ≡ true))
    ⊎ Recorded tables 1 8 approve approved accepted approved_tables
decision-Recorded_example =
    decision-Recorded tables tables approved_tables 1 8 approve approved accepted
      transition_approved
