-- ===== src/Approval/Final.antt =====
-- A decision in backend/app/services.py is the last one.
use file_nest.Base.{ℕ, ◌≡◌, refl, false, not, ◌==◌, Option, none, some, Bool-cases, inl, inr}
use file_nest.Approval.{
  ApprovalStatus, ApprovalAction, ApprovalRequest, Tables, is_waiting_status, find_approval,
  compare_and_set_approval_request, is_repeated_approval, decide_waiting, decide_seen,
  transition_approval_request, approve_operation_plan, edit_operation_plan, reject_operation_plan,
  cancel_operation_plan,
}

module _ (found : Tables) (workflow_id : ℕ) (b : ApprovalRequest)
    (here : find_approval workflow_id found ≡ some b)
    (ended : is_waiting_status b.status ≡ false) where
  no_update :
      (expected_plan_id : ℕ) (next_status : ApprovalStatus) (next_plan_id : ℕ)
      → compare_and_set_approval_request workflow_id expected_plan_id next_status next_plan_id found
        ≡ none
  unfolding compare_and_set_approval_request
  no_update expected_plan_id next_status next_plan_id =
      rw (here, compare_and_set_approval_request) (rw ended refl)

  decide_waiting-final :
      (a : ApprovalRequest) (expected_plan_id : ℕ) (action : ApprovalAction)
      (next_status : ApprovalStatus) (next_plan_id : ℕ)
      → (decide_waiting found a workflow_id expected_plan_id action next_status next_plan_id).1
        ≡ found
  unfolding decide_waiting
  decide_waiting-final a expected_plan_id action next_status next_plan_id =
      rw (no_update expected_plan_id next_status next_plan_id, decide_waiting) refl

  decide_seen-final :
      (seen : Option ApprovalRequest) (expected_plan_id : ℕ) (action : ApprovalAction)
      (next_status : ApprovalStatus) (next_plan_id : ℕ)
      → (decide_seen found seen workflow_id expected_plan_id action next_status next_plan_id).1
        ≡ found
  unfolding decide_seen
  decide_seen-final none expected_plan_id action next_status next_plan_id = refl
  decide_seen-final (some a) expected_plan_id action next_status next_plan_id =
      elim (Bool-cases (not (a.plan_id == expected_plan_id))) [
        | inl e ↦ rw e refl
        | inr e ↦ elim (Bool-cases (is_repeated_approval a action expected_plan_id)) [
          | inl f ↦ rw (e, f) refl
          | inr f ↦ elim (Bool-cases (not (is_waiting_status a.status))) [
            | inl g ↦ rw (e, f, g) refl
            | inr g ↦
                rw (e, f, g)
                  (decide_waiting-final a expected_plan_id action next_status next_plan_id)
          ]
        ]
      ]

  -- Once the approval of a workflow no longer waits, no call changes any row any more: whatever an
  -- earlier query of the call has seen, an approval, an edit, a rejection and a cancellation all leave
  -- the tables as they are.
  pub decided_is_final :
      (seen : Tables) (plan_id replacement_plan_id : ℕ)
      → ((approve_operation_plan seen found workflow_id plan_id).1 ≡ found)
        × ((edit_operation_plan seen found workflow_id plan_id replacement_plan_id).1 ≡ found)
        × ((reject_operation_plan seen found workflow_id plan_id).1 ≡ found)
        × ((cancel_operation_plan seen found workflow_id plan_id).1 ≡ found)
  unfolding approve_operation_plan edit_operation_plan reject_operation_plan cancel_operation_plan
      transition_approval_request
  decided_is_final seen plan_id replacement_plan_id = (
    decide_seen-final (find_approval workflow_id seen) plan_id _ _ plan_id,
    elim (Bool-cases (replacement_plan_id == plan_id)) [
      | inl e ↦ rw e refl
      | inr e ↦
          rw e (decide_seen-final (find_approval workflow_id seen) plan_id _ _ replacement_plan_id)
    ],
    decide_seen-final (find_approval workflow_id seen) plan_id _ _ plan_id,
    decide_seen-final (find_approval workflow_id seen) plan_id _ _ plan_id,
  )
