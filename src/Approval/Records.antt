-- ===== src/Approval/Records.antt =====
-- The rows that an approval touches, of backend/app/models.py, and the queries of
-- backend/app/repositories.py. A table is a list of rows; a query takes the first row of its key.
use file_nest.Base.{
  ℕ, ◌+◌, Bool, true, false, not, ◌&&◌, Option, none, some, List, [], ◌∷◌, ◌==◌, if◌then◌else◌,
  Result, ok, err, ◌>>=◌, ◌>>◌, raise_if,
}
use file_nest.OperationStatus.{
  OperationStatus, waiting_approval, same_status, StatusError, value, transition_operation_status,
}

pub data ApprovalStatus : Type 0 where
  waiting approved rejected cancelled : ApprovalStatus

pub data PlanStatus : Type 0 where
  decided : ApprovalStatus → PlanStatus
  superseded : PlanStatus

pub data ApprovalAction : Type 0 where
  approve edit reject cancel : ApprovalAction

pub record ApprovalRequest : Type 0 where
  pub id : ℕ
  pub workflow_id : ℕ
  pub plan_id : ℕ
  pub status : ApprovalStatus

-- the columns of a plan that an approval touches
pub record OperationPlanRecord : Type 0 where
  pub plan_id : ℕ
  pub status : PlanStatus

-- the columns of an operation that an approval touches
pub record OperationStatusRecord : Type 0 where
  pub workflow_id : ℕ
  pub overall_status : OperationStatus
  pub revision : ℕ
  pub plan_id : ℕ
  pub approval_id : Option ℕ

pub record ApprovalAuditEvent : Type 0 where
  pub approval_request_id : ℕ
  pub action : ApprovalAction
  pub previous_status : ApprovalStatus
  pub next_status : ApprovalStatus
  pub previous_plan_id : ℕ
  pub next_plan_id : ℕ

pub record Tables : Type 0 where
  pub approvals : List ApprovalRequest
  pub plans : List OperationPlanRecord
  pub operations : List OperationStatusRecord
  pub audit : List ApprovalAuditEvent

pub data ApprovalError : Type 0 where
  not_found not_waiting plan_mismatch plan_unchanged state_changed value_error : ApprovalError
  status_error : StatusError → ApprovalError

abbrev pub is_waiting_status : ApprovalStatus → Bool
is_waiting_status waiting = true
is_waiting_status _ = false

abbrev pub is_waiting_plan : PlanStatus → Bool
is_waiting_plan (decided status) = is_waiting_status status
is_waiting_plan superseded = false

-- a SELECT by a key
unfoldable pub find_row {ℓ} : {A : Type ℓ} → (A → ℕ) → ℕ → List A → Option A
find_row key id [] = none
find_row key id (r ∷ rows) =
    let later = find_row key id rows in if key r == id then some r else later

-- an UPDATE of that row
unfoldable pub put_row {ℓ} : {A : Type ℓ} → (A → ℕ) → ℕ → A → List A → List A
put_row key id new [] = []
put_row key id new (r ∷ rows) =
    let later = put_row key id new rows in if key r == id then new ∷ rows else r ∷ later

abbrev pub by_workflow : ApprovalRequest → ℕ
by_workflow a = a.workflow_id

abbrev pub by_plan : OperationPlanRecord → ℕ
by_plan r = r.plan_id

abbrev pub by_operation : OperationStatusRecord → ℕ
by_operation r = r.workflow_id

abbrev pub find_approval : ℕ → Tables → Option ApprovalRequest
find_approval workflow_id db = find_row by_workflow workflow_id db.approvals

-- the row as the UPDATE leaves it, and the tables; none where no row has matched
unfoldable pub compare_and_set_approval_request :
    ℕ → ℕ → ApprovalStatus → ℕ → Tables → Option (ApprovalRequest × Tables)
compare_and_set_approval_request workflow_id expected_plan_id next_status next_plan_id db =
    elim (find_approval workflow_id db) [
      | none ↦ none
      | some a ↦
          let new = record a { status = next_status; plan_id = next_plan_id } in
          if is_waiting_status a.status && a.plan_id == expected_plan_id
          then some
              (new, record db { approvals = put_row by_workflow workflow_id new db.approvals })
          else none
    ]

-- `_sync_operation_plan_status`, with `compare_and_set_operation_plan_status`
unfoldable pub sync_operation_plan_status : ℕ → PlanStatus → Tables → Result ApprovalError Tables
sync_operation_plan_status plan_id next_status db = elim (find_row by_plan plan_id db.plans) [
  | none ↦ ok db
  | some r ↦ do
    raise_if (not (is_waiting_plan r.status)) state_changed
    ok (record db { plans = put_row by_plan plan_id (record r { status = next_status }) db.plans })
]

abbrev pub or_status_error {ℓ} : {A : Type ℓ} → Result StatusError A → Result ApprovalError A
or_status_error (ok a) = ok a
or_status_error (err e) = err (status_error e)

-- the status that the UPDATE writes: `compare_and_set_operation_status_links` keeps it
unfoldable pub next_operation_status :
    OperationStatus → OperationStatus → Result ApprovalError OperationStatus
next_operation_status expected_status next_status =
    if same_status next_status expected_status
    then ok expected_status
    else or_status_error (transition_operation_status (value expected_status) (value next_status))

-- `_sync_operation_status`: the row has just been read, so the UPDATE finds its status and revision
unfoldable pub sync_operation_status :
    ℕ → OperationStatus → ℕ → ℕ → Tables → Result ApprovalError Tables
sync_operation_status workflow_id next_status plan_id approval_id db =
    elim (find_row by_operation workflow_id db.operations) [
      | none ↦ ok db
      | some r ↦ do
        raise_if (not (same_status r.overall_status waiting_approval)) state_changed
        raise_if (approval_id == 0) value_error
        overall_status ← next_operation_status waiting_approval next_status
        let new = record r {
          overall_status = overall_status;
          revision = r.revision + 1;
          plan_id = plan_id;
          approval_id = some approval_id;
        }
        ok (record db { operations = put_row by_operation workflow_id new db.operations })
    ]
