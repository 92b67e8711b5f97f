-- ===== src/Approval/Recorded.antt =====
-- What a decision of backend/app/services.py leaves in the tables.
use file_nest.Base.{
  ℕ, ◌+◌, ◌≡◌, refl, sym, ap, ◌∙◌, ◌⊎◌, true, false, not, ◌==◌, ==_iff, Option, none, some, [], ◌∷◌,
  ◌++◌, arith, ok, err, ◌>>=◌, Bool-cases, Option-cases, Result-cases, inl, inr, >>=-eq-ok,
  ok-injective,
}
use file_nest.Approval.{
  Answer, ApprovalStatus, decided, ApprovalAction, ApprovalRequest, OperationPlanRecord,
  OperationStatusRecord, ApprovalAuditEvent, Tables, ApprovalError, is_waiting_status, find_row,
  put_row, by_workflow, by_plan, by_operation, find_approval, compare_and_set_approval_request,
  sync_operation_plan_status, sync_operation_status, is_repeated_approval, operation_status,
  lost_update, sync_plans, new_audit_event, write_decision, decide_waiting, decide_seen,
  transition_approval_request,
}
use file_nest.Approval.Rows.{find_row-key, find_row-put}
use file_nest.Approval.Updates.{updated_approval, synced_plan, synced_operation}

-- the tables after a decision has been written
pub record Recorded (found : Tables) (workflow_id plan_id : ℕ) (action : ApprovalAction)
    (status : ApprovalStatus) (a : ApprovalRequest) (db : Tables) : Type 0 where
  pub waited : ApprovalRequest
  pub was_there : find_approval workflow_id found ≡ some waited
  pub was_waiting : is_waiting_status waited.status ≡ true
  pub was_shown : waited.plan_id ≡ plan_id
  pub kept : find_approval workflow_id db ≡ some a
  pub answered : (a.status ≡ status) × (a.plan_id ≡ plan_id)
  pub plan :
      (r : OperationPlanRecord)
      → find_row by_plan plan_id found.plans ≡ some r
      → find_row by_plan plan_id db.plans ≡ some (record r { status = decided status })
  pub operation :
      (r : OperationStatusRecord)
      → find_row by_operation workflow_id found.operations ≡ some r
      → (next : OperationStatusRecord) × (find_row by_operation workflow_id db.operations
          ≡ some next)
        × (next.overall_status ≡ operation_status status)
        × (next.revision ≡ r.revision + 1)
        × (next.plan_id ≡ plan_id)
  pub event : ApprovalAuditEvent
  pub audited : db.audit ≡ found.audit ++ event ∷ []
  pub names :
      (event.action ≡ action) × (event.next_status ≡ status) × (event.next_plan_id ≡ plan_id)

written_if :
    (found : Tables) (w new : ApprovalRequest) (action : ApprovalAction) (updated done : Tables)
    → (sync_plans w.plan_id new.status new.plan_id updated
        >>= sync_operation_status w.workflow_id (operation_status new.status) new.plan_id w.id)
      ≡ ok done
    → write_decision found w action new updated
      ≡ (ok new, record done { audit = done.audit ++ new_audit_event w action new ∷ [] })
unfolding write_decision
written_if found w new action updated done h = rw (h, write_decision) refl

refused_if :
    (found : Tables) (w new : ApprovalRequest) (action : ApprovalAction) (updated : Tables)
    (e : ApprovalError)
    → (sync_plans w.plan_id new.status new.plan_id updated
        >>= sync_operation_status w.workflow_id (operation_status new.status) new.plan_id w.id)
      ≡ err e
    → write_decision found w action new updated ≡ (err e, found)
unfolding write_decision
refused_if found w new action updated e h = rw (h, write_decision) refl

one_plan :
    (plan_id : ℕ) (status : ApprovalStatus) (db : Tables)
    → sync_plans plan_id status plan_id db ≡ sync_operation_plan_status plan_id (decided status) db
unfolding sync_plans
one_plan plan_id status db = rw ((==_iff plan_id plan_id).1 refl) refl

-- all that has been written when the decision of a person returns
recorded :
    (found db updated done : Tables) (workflow_id plan_id : ℕ) (action : ApprovalAction)
    (status : ApprovalStatus) (w new a : ApprovalRequest)
    → w.plan_id ≡ plan_id
    → w.workflow_id ≡ workflow_id
    → compare_and_set_approval_request workflow_id plan_id status plan_id found
      ≡ some (new, updated)
    → (sync_plans w.plan_id new.status new.plan_id updated
        >>= sync_operation_status w.workflow_id (operation_status new.status) new.plan_id w.id)
      ≡ ok done
    → a ≡ new
    → db ≡ record done { audit = done.audit ++ new_audit_event w action new ∷ [] }
    → Recorded found workflow_id plan_id action status a db
recorded found db updated done workflow_id plan_id action status w new a of_plan of_workflow set ran
      answer left =
    let (waited, there, waits, shown, row, tables) =
      updated_approval workflow_id plan_id status found new updated set in
    let st : new.status ≡ status = ap (λ (x : ApprovalRequest). x.status) row in
    let pl : new.plan_id ≡ plan_id = ap (λ (x : ApprovalRequest). x.plan_id) row in
    let (mid, planned, synced) =
      >>=-eq-ok (sync_plans w.plan_id new.status new.plan_id updated)
        (sync_operation_status w.workflow_id (operation_status new.status) new.plan_id w.id) ran in
    let plans : sync_operation_plan_status plan_id (decided status) updated ≡ ok mid =
      sym (one_plan plan_id status updated) ∙ cc (planned, st, pl, of_plan) in
    let operations : sync_operation_status workflow_id (operation_status status) plan_id w.id mid
        ≡ ok done =
      cc (synced, st, pl, of_workflow) in
    let (same_approvals, same_operations, same_audit, plan) =
      synced_plan plan_id status updated mid plans in
    let (kept_approvals, kept_plans, kept_audit, operation) =
      synced_operation workflow_id plan_id w.id status mid done operations in
    let approvals : done.approvals ≡ put_row by_workflow workflow_id new found.approvals =
      kept_approvals ∙ same_approvals ∙ ap (λ (t : Tables). t.approvals) tables in
    let own : new.workflow_id ≡ workflow_id =
      ap (λ (x : ApprovalRequest). x.workflow_id) row
      ∙ find_row-key by_workflow workflow_id found.approvals waited there in
    record {
      waited = waited;
      was_there = there;
      was_waiting = waits;
      was_shown = shown;
      kept =
          rw (left, answer, approvals)
            (find_row-put by_workflow workflow_id new found.approvals waited there own);
      answered = rw answer (st, pl);
      plan = λ r h. rw (left, kept_plans) (plan r (rw tables h));
      operation = λ r h. rw left (operation r (rw (same_operations, tables) h));
      event = new_audit_event w action new;
      audited = rw (left, kept_audit, same_audit, tables) refl;
      names = (refl, st, pl);
    }

lost_repeated :
    (action : ApprovalAction) (plan_id : ℕ) (o : Option ApprovalRequest) (a : ApprovalRequest)
    → lost_update action plan_id o ≡ ok a
    → is_repeated_approval a action plan_id ≡ true
unfolding lost_update
lost_repeated action plan_id none a h = absurd (cc h)
lost_repeated action plan_id (some current) a h =
    elim (Bool-cases (is_repeated_approval current action plan_id)) [
      | inl e ↦ let same : current ≡ a = ground arith in rw (sym same) e
      | inr e ↦ absurd (ground arith)
    ]

repeated_answer :
    (found db : Tables) (workflow_id plan_id : ℕ) (action : ApprovalAction)
    (status : ApprovalStatus) (w a : ApprovalRequest)
    → not (w.plan_id == plan_id) ≡ false
    → is_repeated_approval w action plan_id ≡ true
    → decide_seen found (some w) workflow_id plan_id action status plan_id ≡ (ok a, db)
    → (db ≡ found) × (is_repeated_approval a action plan_id ≡ true)
repeated_answer found db workflow_id plan_id action status w a e f h =
    let answer : decide_seen found (some w) workflow_id plan_id action status plan_id
        ≡ (ok w, found) =
      unfold decide_seen in rw (e, f) refl in
    let same : (ok w, found) ≡ (ok a, db) = sym answer ∙ h in
    let one : w ≡ a = ok-injective (ap (λ (p : Answer). p.0) same) in
    (sym (ap (λ (p : Answer). p.1) same), rw (sym one) f)

waiting_answer :
    (found : Tables) (workflow_id plan_id : ℕ) (action : ApprovalAction) (status : ApprovalStatus)
    (w : ApprovalRequest)
    → not (w.plan_id == plan_id) ≡ false
    → is_repeated_approval w action plan_id ≡ false
    → not (is_waiting_status w.status) ≡ false
    → decide_seen found (some w) workflow_id plan_id action status plan_id
      ≡ decide_waiting found w workflow_id plan_id action status plan_id
unfolding decide_seen
waiting_answer found workflow_id plan_id action status w e f g = rw (e, f, g) refl

decide_waiting-Recorded :
    (found db : Tables) (workflow_id plan_id : ℕ) (action : ApprovalAction)
    (status : ApprovalStatus) (w a : ApprovalRequest)
    → w.plan_id ≡ plan_id
    → w.workflow_id ≡ workflow_id
    → decide_waiting found w workflow_id plan_id action status plan_id ≡ (ok a, db)
    → ((db ≡ found) × (is_repeated_approval a action plan_id ≡ true))
      ⊎ Recorded found workflow_id plan_id action status a db
unfolding decide_waiting
decide_waiting-Recorded found db workflow_id plan_id action status w a of_plan of_workflow h =
    elim (Option-cases
      (compare_and_set_approval_request workflow_id plan_id status plan_id found)) [
        | inl gone ↦
            let lost : decide_waiting found w workflow_id plan_id action status plan_id
                ≡ (lost_update action plan_id (find_approval workflow_id found), found) =
              rw (gone, decide_waiting) refl in
            let same : (lost_update action plan_id (find_approval workflow_id found), found)
                ≡ (ok a, db) =
              sym lost ∙ h in
            inl (
              sym (ap (λ (p : Answer). p.1) same),
              lost_repeated action plan_id (find_approval workflow_id found) a
                  (ap (λ (p : Answer). p.0) same),
            )
        | inr ((new, updated), set) ↦
            let wrote : decide_waiting found w workflow_id plan_id action status plan_id
                ≡ write_decision found w action new updated =
              rw (set, decide_waiting) refl in
            elim (Result-cases (
              sync_plans w.plan_id new.status new.plan_id updated
              >>= sync_operation_status w.workflow_id (operation_status new.status) new.plan_id
                  w.id)) [
                    | inr (e, ran) ↦
                        let refused = refused_if found w new action updated e ran in
                        absurd (cc (ap (λ (p : Answer). p.0) (sym refused ∙ sym wrote ∙ h)))
                    | inl (done, ran) ↦
                        let written = written_if found w new action updated done ran in
                        let same = sym written ∙ sym wrote ∙ h in
                        inr (
                          recorded found db updated done workflow_id plan_id action status w new a
                            of_plan of_workflow set ran
                            (sym (ok-injective (ap (λ (p : Answer). p.0) same)))
                            (sym (ap (λ (p : Answer). p.1) same)))
                  ]
      ]

decide_seen-Recorded :
    (found db : Tables) (workflow_id plan_id : ℕ) (action : ApprovalAction)
    (status : ApprovalStatus) (w a : ApprovalRequest)
    → w.workflow_id ≡ workflow_id
    → decide_seen found (some w) workflow_id plan_id action status plan_id ≡ (ok a, db)
    → ((db ≡ found) × (is_repeated_approval a action plan_id ≡ true))
      ⊎ Recorded found workflow_id plan_id action status a db
decide_seen-Recorded found db workflow_id plan_id action status w a of_workflow h =
    elim (Bool-cases (not (w.plan_id == plan_id))) [
      | inl e ↦ absurd (unfold decide_seen in ground arith)
      | inr e ↦
          let shown : w.plan_id ≡ plan_id = ground arith in
          elim (Bool-cases (is_repeated_approval w action plan_id)) [
            | inl f ↦ inl (repeated_answer found db workflow_id plan_id action status w a e f h)
            | inr f ↦ elim (Bool-cases (not (is_waiting_status w.status))) [
              | inl g ↦ absurd (unfold decide_seen in ground arith)
              | inr g ↦
                  decide_waiting-Recorded found db workflow_id plan_id action status w a shown
                    of_workflow
                    (sym (waiting_answer found workflow_id plan_id action status w e f g) ∙ h)
            ]
          ]
    ]

-- A decision on the plan that was shown, when it returns, is recorded as a whole: the approval waited for
-- this plan and now has the status of the decision, the records of the plan and of the operation, where
-- they exist, have it too, the operation with the next revision, and the audit ends with one event that
-- names it. Otherwise the decision repeats an earlier one, and nothing has changed.
pub decision-Recorded :
    (seen found db : Tables) (workflow_id plan_id : ℕ) (action : ApprovalAction)
    (status : ApprovalStatus) (a : ApprovalRequest)
    → transition_approval_request seen found workflow_id plan_id action status plan_id ≡ (ok a, db)
    → ((db ≡ found) × (is_repeated_approval a action plan_id ≡ true))
      ⊎ Recorded found workflow_id plan_id action status a db
unfolding transition_approval_request
decision-Recorded seen found db workflow_id plan_id action status a h =
    elim (Option-cases (find_approval workflow_id seen)) [
      | inl gone ↦ absurd (unfold decide_seen in ground arith)
      | inr (w, there) ↦
          decide_seen-Recorded found db workflow_id plan_id action status w a
            (find_row-key by_workflow workflow_id seen.approvals w there)
            (sym (ap (λ o. decide_seen found o workflow_id plan_id action status plan_id) there)
              ∙ h)
    ]
