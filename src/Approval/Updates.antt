-- ===== src/Approval/Updates.antt =====
-- The UPDATEs of one decision of backend/app/services.py.
use file_nest.Base.{
  ℕ, ◌+◌, ◌≡◌, refl, ap, true, ◌&&◌, ◌==◌, some, arith, ok, Option-cases, inl, inr,
}
use file_nest.OperationStatus.{
  same_status, waiting_approval, coerce_status, transition_operation_status,
}
use file_nest.Approval.{
  ApprovalStatus, waiting, approved, rejected, cancelled, decided, ApprovalRequest,
  OperationPlanRecord, OperationStatusRecord, Tables, is_waiting_status, find_row, put_row,
  by_workflow, by_plan, by_operation, find_approval, compare_and_set_approval_request,
  sync_operation_plan_status, next_operation_status, sync_operation_status, operation_status,
}
use file_nest.Approval.Rows.{find_row-key, find_row-put}

next_operation_status-ok :
    (s : ApprovalStatus)
    → next_operation_status waiting_approval (operation_status s) ≡ ok (operation_status s)
unfolding next_operation_status same_status transition_operation_status coerce_status
next_operation_status-ok waiting = refl
next_operation_status-ok approved = refl
next_operation_status-ok rejected = refl
next_operation_status-ok cancelled = refl

-- the UPDATE of the approval
pub updated_approval :
    (workflow_id plan_id : ℕ) (status : ApprovalStatus) (found : Tables) (new : ApprovalRequest)
    (updated : Tables)
    → compare_and_set_approval_request workflow_id plan_id status plan_id found
      ≡ some (new, updated)
    → (a : ApprovalRequest) × (find_approval workflow_id found ≡ some a)
      × (is_waiting_status a.status ≡ true)
      × (a.plan_id ≡ plan_id)
      × (new ≡ record a { status = status; plan_id = plan_id })
      × (updated ≡ record found { approvals = put_row by_workflow workflow_id new found.approvals })
unfolding compare_and_set_approval_request
updated_approval workflow_id plan_id status found new updated h =
    elim (Option-cases (find_approval workflow_id found)) [
      | inl gone ↦ absurd (ground arith)
      | inr (a, there) ↦
          let waits : (is_waiting_status a.status && a.plan_id == plan_id) ≡ true = ground arith in
          let row : ApprovalRequest = record a { status = status; plan_id = plan_id } in
          let db : Tables = record found {
            approvals = put_row by_workflow workflow_id row found.approvals;
          } in
          let done : compare_and_set_approval_request workflow_id plan_id status plan_id found
              ≡ some (row, db) =
            rw (there, compare_and_set_approval_request) (rw waits refl) in
          let same : (new, updated) ≡ (row, db) = cc (h, done) in
          let new_row : new ≡ row = ap (λ (p : ApprovalRequest × Tables). p.0) same in
          (
            a,
            there,
            ground arith,
            ground arith,
            new_row,
            rw new_row (ap (λ (p : ApprovalRequest × Tables). p.1) same),
          )
    ]

pub synced_plan :
    (plan_id : ℕ) (status : ApprovalStatus) (db next : Tables)
    → sync_operation_plan_status plan_id (decided status) db ≡ ok next
    → (next.approvals ≡ db.approvals)
      × (next.operations ≡ db.operations)
      × (next.audit ≡ db.audit)
      × ((r : OperationPlanRecord)
          → find_row by_plan plan_id db.plans ≡ some r
          → find_row by_plan plan_id next.plans ≡ some (record r { status = decided status }))
unfolding sync_operation_plan_status
synced_plan plan_id status db next h = elim (Option-cases (find_row by_plan plan_id db.plans)) [
  | inl gone ↦
      let same : next ≡ db = ground arith in
      rw same (refl, refl, refl, λ r there. absurd (cc (gone, there)))
  | inr (r, there) ↦
      let new : OperationPlanRecord = record r { status = decided status } in
      let same : next ≡ record db { plans = put_row by_plan plan_id new db.plans } = ground arith in
      rw same (
        refl,
        refl,
        refl,
        λ other found.
            let one : other ≡ r = cc (there, found) in
            rw one (
              find_row-put by_plan plan_id new db.plans r there
                (find_row-key by_plan plan_id db.plans r there)),
      )
]

pub synced_operation :
    (workflow_id plan_id approval_id : ℕ) (status : ApprovalStatus) (db next : Tables)
    → sync_operation_status workflow_id (operation_status status) plan_id approval_id db ≡ ok next
    → (next.approvals ≡ db.approvals)
      × (next.plans ≡ db.plans)
      × (next.audit ≡ db.audit)
      × ((r : OperationStatusRecord)
          → find_row by_operation workflow_id db.operations ≡ some r
          → (new : OperationStatusRecord) × (find_row by_operation workflow_id next.operations
              ≡ some new)
            × (new.overall_status ≡ operation_status status)
            × (new.revision ≡ r.revision + 1)
            × (new.plan_id ≡ plan_id))
unfolding sync_operation_status
synced_operation workflow_id plan_id approval_id status db next h =
    elim (Option-cases (find_row by_operation workflow_id db.operations)) [
      | inl gone ↦
          let same : next ≡ db = ground arith in
          rw same (refl, refl, refl, λ r there. absurd (cc (gone, there)))
      | inr (r, there) ↦
          let new : OperationStatusRecord = record r {
            overall_status = operation_status status;
            revision = r.revision + 1;
            plan_id = plan_id;
            approval_id = some approval_id;
          } in
          let same : next
              ≡ record db { operations = put_row by_operation workflow_id new db.operations } =
            ground (arith, next_operation_status-ok status) in
          rw same (
            refl,
            refl,
            refl,
            λ other found.
                let one : other ≡ r = cc (there, found) in
                rw one (
                  new,
                  find_row-put by_operation workflow_id new db.operations r there
                      (find_row-key by_operation workflow_id db.operations r there),
                  refl,
                  refl,
                  refl,
                ),
          )
    ]
