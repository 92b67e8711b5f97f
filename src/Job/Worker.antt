-- ===== src/Job/Worker.antt =====
-- `transition_job` of backend/app/job_system.py: the handlers of a running attempt, and the outcome of
-- every event.
use file_nest.Base.{
  ℕ, ◌+◌, ◌≡◌, ◌≢◌, ◌≤◌, refl, true, false, not, ◌&&◌, Option, none, some, [], arith, last?,
  last?-ne_nil, ltb, ◌==◌, Result, ok, err, Bool-cases, inl, inr, Option-cases,
}
use file_nest.FilePath.{Text}
use file_nest.Job.Model.{
  JobStatus, AttemptStatus, JobEventKind, attempt_started, progress_reported,
  cancellation_requested, retry_requested, JobError, job_mismatch, event_sequence_mismatch,
  attempt_mismatch, invalid_transition, progress_regression, validation_error, JobProgress,
  is_progress, JobTaskPayload, JobAttempt, is_attempt, JobEvent, is_event, is_outcome,
}
use file_nest.Job.State.{JobState, fits_latest, is_lifecycle}
use file_nest.Job.Events.{
  active_of_latest, active_attempt, next_progress, report_progress, request_cancellation,
  finished_attempt, finish_attempt, handle, transition_job, has_worker, is_id, is_cancellation,
  is_cancel_requested, validate_progress, changes_total, first_total,
}
use file_nest.Job.Attempts.{SameAttempt}
use file_nest.Job.Outcome.{
  Outcome, refused, bad_progress, is_transition_error, validate_attempt-ok, moved-Tests,
  start_attempt-Outcome, request_retry-Outcome, cancel_by_status-Outcome,
}
use file_nest.Job.Cancel.{cancelled_job-refused}
use file_nest.Job.Validity.{
  IsValid, Tests, Tests-of_valid, latest_attempt, replaced_job-Tests, finished_job-Tests,
  finished_attempt-is_attempt, is_finish,
}

module _ (hash : JobTaskPayload → Text) where
  -- the two ends of `_active_attempt`
  data Active (s : JobState) (e : JobEvent) : Type 0 where
    found :
        (a : JobAttempt)
        → active_attempt s e ≡ ok a
        → last? s.attempts ≡ some a
        → a.status ≡ AttemptStatus.running
        → Active s e
    missing :
        (x : JobError) → active_attempt s e ≡ err x → is_transition_error x ≡ true → Active s e

  pub has_latest :
      (s : JobState)
      → Tests hash s
      → has_worker s.status ≡ true
      → (a : JobAttempt) × (last? s.attempts ≡ some a) × (a.status ≡ AttemptStatus.running)
  unfolding is_lifecycle fits_latest
  has_latest s t h = elim (Option-cases (last? s.attempts)) [
    | inl l ↦ absurd (ground (arith, t.lifecycle))
    | inr (a, l) ↦ (a, l, ground (arith, t.lifecycle))
  ]

  Active-cases : (s : JobState) (e : JobEvent) → Tests hash s → Active s e
  unfolding active_attempt active_of_latest
  Active-cases s e t = elim (Bool-cases (has_worker s.status)) [
    | inr h ↦ missing invalid_transition (rw h refl) refl
    | inl h ↦
        let (a, l, st) = has_latest s t h in
        elim (Bool-cases (is_id e.attempt_id a.attempt_id)) [
          | inr k ↦ missing attempt_mismatch (rw (h, l, st, k) refl) refl
          | inl k ↦ found a (rw (h, l, st, k) refl) l st
        ]
  ]

  finish_attempt-Outcome :
      (s : JobState) (e : JobEvent)
      → Tests hash s
      → is_event e ≡ true
      → is_finish e.kind ≡ true
      → ltb e.occurred_at s.created_at ≡ false
      → Outcome hash s e (finish_attempt hash s e)
  unfolding finish_attempt
  finish_attempt-Outcome s e t w kind late = elim (Active-cases s e t) [
    | missing x h bad ↦ refused x (rw h refl) bad
    | found a h l st ↦ elim (Bool-cases (ltb e.occurred_at a.started_at)) [
      | inl early ↦ refused invalid_transition (rw (h, early) refl) refl
      | inr after ↦
          elim (Bool-cases (is_cancellation e.kind && not (is_cancel_requested s.status))) [
            | inl unasked ↦ refused invalid_transition (rw (h, after, unasked) refl) refl
            | inr asked ↦
                let good =
                  finished_attempt-is_attempt hash e a w kind (latest_attempt hash s a t l) after in
                moved-Tests hash s _ e _
                  (rw (h, after, asked, validate_attempt-ok (finished_attempt a e) good) refl)
                  (finished_job-Tests hash s e a t w l kind good late asked)
          ]
    ]
  ]

  -- the two ends of the tests on a reported progress
  data Reported (current : JobProgress) (e : JobEvent) (r : Result JobError JobProgress)
      : Type 0 where
    reported : (p : JobProgress) → r ≡ ok p → is_progress p ≡ true → Reported current e r
    regressed : (x : JobError) → r ≡ err x → is_transition_error x ≡ true → Reported current e r
    overrun : r ≡ err validation_error → Reported current e r

  Reported-cases :
      (current : JobProgress) (e : JobEvent) (units : Option ℕ) (code : Option Text)
      → Reported current e (next_progress current e units code)
  unfolding next_progress validate_progress
  Reported-cases current e none code = regressed invalid_transition refl refl
  Reported-cases current e (some n) none = regressed invalid_transition refl refl
  Reported-cases current e (some n) (some code) =
      elim (Bool-cases (ltb n current.completed_units)) [
        | inl back ↦ regressed progress_regression (rw back refl) refl
        | inr forth ↦ elim (Bool-cases (changes_total current.total_units e.total_units)) [
          | inl other ↦ regressed progress_regression (rw (forth, other) refl) refl
          | inr same ↦
              let p : JobProgress = record {
                completed_units = n;
                total_units = first_total current.total_units e.total_units;
                phase_code = code;
              } in
              elim (Bool-cases (is_progress p)) [
                | inl good ↦ reported p (rw (forth, same, good) refl) good
                | inr over ↦ overrun (rw (forth, same, over) refl)
              ]
        ]
      ]

  moved_on-is_attempt :
      (a : JobAttempt) (p : JobProgress)
      → is_attempt a ≡ true
      → is_progress p ≡ true
      → a.status ≡ AttemptStatus.running
      → is_attempt (record a { progress = p }) ≡ true
  unfolding is_attempt is_outcome
  moved_on-is_attempt a p h k st = ground arith

  report_progress-Outcome :
      (s : JobState) (e : JobEvent)
      → Tests hash s
      → e.kind ≡ progress_reported
      → Outcome hash s e (report_progress hash s e)
  unfolding report_progress
  report_progress-Outcome s e t kind = elim (Active-cases s e t) [
    | missing x h bad ↦ refused x (rw h refl) bad
    | found a h l st ↦ elim (Reported-cases a.progress e e.completed_units e.phase_code) [
      | regressed x k bad ↦ refused x (rw (h, k) refl) bad
      | overrun k ↦ bad_progress kind (rw (h, k) refl)
      | reported p k good ↦
          let valid = moved_on-is_attempt a p (latest_attempt hash s a t l) good st in
          let same : SameAttempt (record a { progress = p }) a = record {
            id = refl;
            job = refl;
            number = refl;
            start = refl;
          } in
          moved-Tests hash s _ e _
            (rw (h, k, validate_attempt-ok (record a { progress = p }) valid) refl)
            (replaced_job-Tests hash s (record a { progress = p }) a e.sequence_no t l same refl
              refl valid)
    ]
  ]

  handle-Outcome :
      (s : JobState) (e : JobEvent) (kind : JobEventKind)
      → Tests hash s
      → is_event e ≡ true
      → ltb e.occurred_at s.created_at ≡ false
      → e.kind ≡ kind
      → Outcome hash s e (handle hash kind s e)
  unfolding handle request_cancellation
  handle-Outcome s e attempt_started t w late k = start_attempt-Outcome hash s e t late
  handle-Outcome s e progress_reported t w late k = report_progress-Outcome s e t k
  handle-Outcome s e cancellation_requested t w late k =
      cancel_by_status-Outcome hash s e s.status t late k refl
  handle-Outcome s e retry_requested t w late k = request_retry-Outcome hash s e t
  handle-Outcome s e _ t w late k = finish_attempt-Outcome s e t w (rw k refl) late

  -- A valid event on a valid job gives a valid job or one of the six transition errors. Pydantic's
  -- ValidationError can come only of a progress report, or of the cancellation of a pending job that has
  -- an attempt behind it. The IndexError of `attempts[-1]` never occurs.
  pub transition_job-Outcome :
      (s : JobState) (e : JobEvent)
      → IsValid hash s
      → is_event e ≡ true
      → Outcome hash s e (transition_job hash s e)
  unfolding transition_job
  transition_job-Outcome s e v w = elim (Bool-cases (e.job_id == s.job_id)) [
    | inr other ↦ refused job_mismatch (rw other refl) refl
    | inl own ↦ elim (Bool-cases (e.sequence_no == s.revision + 1)) [
      | inr gap ↦ refused event_sequence_mismatch (rw (own, gap) refl) refl
      | inl next ↦ elim (Bool-cases (ltb e.occurred_at s.created_at)) [
        | inl early ↦ refused invalid_transition (rw (own, next, early) refl) refl
        | inr late ↦
            rw (own, next, late) (handle-Outcome s e e.kind (Tests-of_valid hash s v) w late refl)
      ]
    ]
  ]

  -- Cancelling a valid pending job that is to be retried raises ValidationError, whatever its failed
  -- attempts: the state built for it is refused because the last attempt is not cancelled.
  pub cancel_pending_retry :
      (s : JobState) (e : JobEvent)
      → IsValid hash s
      → s.status ≡ JobStatus.pending
      → s.attempts ≢ []
      → e.kind ≡ cancellation_requested
      → e.job_id ≡ s.job_id
      → e.sequence_no ≡ s.revision + 1
      → s.created_at ≤ e.occurred_at
      → transition_job hash s e ≡ err validation_error
  unfolding transition_job handle request_cancellation
  cancel_pending_retry s e v p more kind own next late =
      let (a, l) = last?-ne_nil s.attempts more in
      ground (arith, cancelled_job-refused hash s e (Tests-of_valid hash s v) (ground arith) a p l)
